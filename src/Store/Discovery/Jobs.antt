-- ===== src/Store/Discovery/Jobs.antt =====
-- The state machine of a job.
use device_management_platfo.Base.{
  ℕ, ℤ, ◌≡◌, refl, arith, String, Bool, true, false, ◌||◌, some, List, [], ◌∷◌, ◌==◌, if◌then◌else◌,
  find, find-update, All,
}
use device_management_platfo.Store.Schema.{Db, DiscoveryJob}
use device_management_platfo.Store.Discovery.{
  clamp, is_open, is_final, move_job, movable, set_discovery_job_state,
}

pub move_job-id :
    (status : String) (progress now : ℕ) (j : DiscoveryJob)
    → (move_job status progress now j).id ≡ j.id
unfolding move_job
move_job-id status progress now j = ground arith

-- The job found by its id after a call is the job found before it, moved if the WHERE clause has it.
pub find-set_discovery_job_state :
    (job_id asked status : String) (progress : ℤ) (now : ℕ) (db : Db) (j : DiscoveryJob)
    → find (λ i. i.id == asked) db.discovery_jobs ≡ some j
    → find
        (λ i. i.id == asked)
        (set_discovery_job_state job_id status progress now db).0.discovery_jobs
      ≡ some (if movable job_id status j then move_job status (clamp progress) now j else j)
unfolding set_discovery_job_state
find-set_discovery_job_state job_id asked status progress now db j e =
    find-update (λ i. i.id == asked) (movable job_id status) (move_job status (clamp progress) now)
      (λ i. rw (move_job-id status (clamp progress) now i) refl) db.discovery_jobs j e

-- The calls that the manager makes: the status is "running" or a final one.
pub record Call : Type 0 where
  pub job_id : String
  pub status : String
  pub progress : ℤ
  pub now : ℕ

abbrev pub is_guarded : Call → Bool
is_guarded c = c.status == "running" || is_final c.status

abbrev pub calls : List Call → Db → Db
calls [] db = db
calls (c ∷ cs) db = calls cs (set_discovery_job_state c.job_id c.status c.progress c.now db).0

movable-closed :
    (job_id status : String) (j : DiscoveryJob)
    → (status == "running" || is_final status) ≡ true
    → is_open j.status ≡ false
    → movable job_id status j ≡ false
unfolding movable
movable-closed job_id status j guarded closed = ground arith

-- A job that is neither queued nor running stays exactly as it is under any calls with the status
-- "running", "completed", "failed" or "canceled", on whatever jobs.
pub closed_job_lasts :
    (asked : String) (j : DiscoveryJob)
    → is_open j.status ≡ false
    → (cs : List Call) → All (λ c. is_guarded c ≡ true) cs
    → (db : Db) → find (λ i. i.id == asked) db.discovery_jobs ≡ some j
    → find (λ i. i.id == asked) (calls cs db).discovery_jobs ≡ some j
closed_job_lasts asked j closed [] h db e = e
closed_job_lasts asked j closed (c ∷ cs) (g, h) db e =
    closed_job_lasts asked j closed cs h
      (set_discovery_job_state c.job_id c.status c.progress c.now db).0
      (rw
        (
          find-set_discovery_job_state c.job_id asked c.status c.progress c.now db j e,
          movable-closed c.job_id c.status j g closed,
        )
        refl)
