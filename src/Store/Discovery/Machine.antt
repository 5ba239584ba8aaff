-- ===== src/Store/Discovery/Machine.antt =====
-- What a job is meant to go through, and that the UPDATE statements do that and no more.
use device_management_platfo.Base.{
  ℕ, ℤ, pos, negsuc, ◌≡◌, ◌≤◌, arith, String, Bool, true, ◌||◌, eq_iff, some, List, [], ◌∷◌, ◌==◌,
  if◌then◌else◌, if_split, Bool-cases, inl, inr, update,
}
use device_management_platfo.Store.Schema.{Db, DiscoveryJob}
use device_management_platfo.Store.Discovery.{
  clamp, is_open, is_final, move_job, movable, set_discovery_job_state, coalesce,
}

-- An open job reports a progress or ends; its first report keeps the time of the start.
pub data JobStep : DiscoveryJob → DiscoveryJob → Type 0 where
  stays : (j : DiscoveryJob) → JobStep j j
  reports :
      (j : DiscoveryJob) (p now : ℕ)
      → is_open j.status ≡ true
      → p ≤ 100
      → JobStep j
          (record j { status = "running"; progress = p; started_at = coalesce j.started_at now })
  ends :
      (j : DiscoveryJob) (status : String) (p now : ℕ)
      → is_open j.status ≡ true
      → is_final status ≡ true
      → p ≤ 100
      → JobStep j (record j { status = status; progress = p; finished_at = some now })

pub data Pairwise {A : Type 0} (R : A → A → Type 0) : List A → List A → Type 0 where
  nothing : Pairwise R [] []
  both : (x y : A) (xs ys : List A) → R x y → Pairwise R xs ys → Pairwise R (x ∷ xs) (y ∷ ys)

Pairwise-update :
    {A : Type 0} (R : A → A → Type 0) (p : A → Bool) (f : A → A)
    → ((x : A) → R x (if p x then f x else x))
    → (xs : List A) → Pairwise R xs (update p f xs)
unfolding update
Pairwise-update R p f step [] = nothing
Pairwise-update R p f step (x ∷ xs) =
    both x (if p x then f x else x) xs (update p f xs) (step x) (Pairwise-update R p f step xs)

clamp-le : (p : ℤ) → clamp p ≤ 100
unfolding clamp
clamp-le (pos n) = ground arith
clamp-le (negsuc n) = omega arith

move_job-JobStep :
    (status : String) (p now : ℕ) (j : DiscoveryJob)
    → (status == "running" || is_final status) ≡ true
    → is_open j.status ≡ true
    → p ≤ 100
    → JobStep j (move_job status p now j)
unfolding move_job
move_job-JobStep status p now j guarded open_job bound = elim (Bool-cases (status == "running")) [
  | inl hit ↦
      (let same : status ≡ "running" = ground (arith, eq_iff status "running", hit) in
        rw (hit, same) (reports j p now open_job bound))
  | inr miss ↦
      (let final : is_final status ≡ true = rw miss at guarded in
        rw (miss, final) (ends j status p now open_job final bound))
]

-- A call with the status "running", "completed", "failed" or "canceled" takes every job through at
-- most one step of the machine.
pub set_discovery_job_state-JobStep :
    (job_id status : String) (progress : ℤ) (now : ℕ) (db : Db)
    → (status == "running" || is_final status) ≡ true
    → Pairwise JobStep db.discovery_jobs
        (set_discovery_job_state job_id status progress now db).0.discovery_jobs
unfolding set_discovery_job_state movable
set_discovery_job_state-JobStep job_id status progress now db guarded =
    Pairwise-update JobStep (movable job_id status) (move_job status (clamp progress) now)
      (λ j.
        if_split (JobStep j) (movable job_id status j)
          (λ hit.
            move_job-JobStep status (clamp progress) now j guarded (ground (arith, hit))
              (clamp-le progress))
          (λ miss. stays j))
      db.discovery_jobs
