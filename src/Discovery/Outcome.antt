-- ===== src/Discovery/Outcome.antt =====
-- How a run ends.
use Prim.Native.Nat.{◌*◌, ◌/◌}
use device_management_platfo.Base.{
  ◌⊎◌, ℕ, ℤ, pos, ◌+◌, ◌≡◌, refl, arith, String, true, false, ◌||◌, not, Option, none, some, List,
  [], ◌∷◌, ◌==◌, if◌then◌else◌, Bool-cases, Option-cases, inl, inr, find, find-test, count_found,
  if_both, length, ok,
}
use device_management_platfo.Store.{Db, DiscoveryJob}
use device_management_platfo.Store.Discovery.{
  clamp, is_open, is_final, move_job, movable, coalesce, discovery_job, set_discovery_job_state,
  save_discovery_result,
}
use device_management_platfo.Store.Discovery.Jobs.{find-set_discovery_job_state}
use device_management_platfo.Discovery.Run.{Delivery, Outside, save, is_last, receive, run}

abbrev pub IsFound : String → DiscoveryJob → Db → Type 0
IsFound job_id j db = find (λ i. i.id == job_id) db.discovery_jobs ≡ some j

save-jobs :
    (job_id : String) (d : Delivery) (db : Db)
    → (save job_id d db).discovery_jobs ≡ db.discovery_jobs
unfolding save save_discovery_result
save-jobs job_id d db = ground arith

movable-IsFound :
    (job_id status : String) (db : Db) (j : DiscoveryJob)
    → IsFound job_id j db
    → is_open j.status ≡ true
    → movable job_id status j ≡ true
unfolding movable
movable-IsFound job_id status db j e o =
    ground (arith, o, find-test (λ i. i.id == job_id) db.discovery_jobs j e)

-- A call on an open job that is there succeeds.
set-IsFound :
    (job_id status : String) (progress : ℤ) (now : ℕ) (db : Db) (j : DiscoveryJob)
    → IsFound job_id j db
    → is_open j.status ≡ true
    → (set_discovery_job_state job_id status progress now db).1 ≡ ok tt
unfolding set_discovery_job_state
set-IsFound job_id status progress now db j e o =
    let some_row =
      count_found (λ i. i.id == job_id) (movable job_id status) db.discovery_jobs j e
        (movable-IsFound job_id status db j e o) in
    ground arith

-- An open job is moved.
IsFound-set :
    (job_id status : String) (progress : ℤ) (now : ℕ) (db : Db) (j : DiscoveryJob)
    → IsFound job_id j db
    → is_open j.status ≡ true
    → IsFound job_id
        (move_job status (clamp progress) now j)
        (set_discovery_job_state job_id status progress now db).0
IsFound-set job_id status progress now db j e o =
    rw
      (
        find-set_discovery_job_state job_id job_id status progress now db j e,
        movable-IsFound job_id status db j e o,
      )
      refl

-- The job is there, is running, and started at the time s.
Running : String → ℕ → Db → Type 0
Running job_id s db =
    (j : DiscoveryJob) × IsFound job_id j db × (j.status ≡ "running") × (j.started_at ≡ some s)

Running-report :
    (job_id : String) (s p now : ℕ) (db : Db)
    → Running job_id s db
    → Running job_id s (set_discovery_job_state job_id "running" (pos p) now db).0
unfolding Running move_job is_open
Running-report job_id s p now db (j, e, st, at) = (
  move_job "running" (clamp (pos p)) now j,
  IsFound-set job_id "running" (pos p) now db j e (rw st refl),
  refl,
  rw at refl,
)

Running-save :
    (job_id : String) (s : ℕ) (d : Delivery) (db : Db)
    → Running job_id s db
    → Running job_id s (save job_id d db)
unfolding Running
Running-save job_id s d db h = rw (save-jobs job_id d db) h

Running-receive :
    (job_id : String) (s total completed : ℕ) (last : Option ℕ) (ds : List Delivery) (db : Db)
    → Running job_id s db
    → Running job_id s (receive job_id total completed last ds db)
unfolding receive
Running-receive job_id s total completed last [] db h = h
Running-receive job_id s total completed last (d ∷ ds) db h =
    let saved = Running-save job_id s d db h in
    let progress = (completed + 1) * 100 / total in
    Running-receive job_id s total (completed + 1) (some progress) ds
      (if is_last last progress
        then save job_id d db
        else (set_discovery_job_state job_id "running" (pos progress) d.now (save job_id d db)).0)
      (if_both (Running job_id s) (is_last last progress) saved
        (Running-report job_id s progress d.now (save job_id d db) saved))

-- The job is there, with what its last update wrote.
abbrev pub Closed : String → String → ℕ → Option ℕ → ℕ → Db → Type 0
Closed job_id status progress started finished db =
    (i : DiscoveryJob) × (discovery_job job_id db ≡ ok i)
    × (i.status ≡ status)
    × (i.progress ≡ progress)
    × (i.started_at ≡ started)
    × (i.finished_at ≡ some finished)

Closed-set :
    (job_id status : String) (s p now : ℕ) (db : Db)
    → (status == "running") ≡ false
    → is_final status ≡ true
    → Running job_id s db
    → Closed job_id status
        (clamp (pos p))
        (some s)
        now
        (set_discovery_job_state job_id status (pos p) now db).0
unfolding Running move_job is_open discovery_job
Closed-set job_id status s p now db r f (j, e, st, at) = (
  move_job status (clamp (pos p)) now j,
  rw (IsFound-set job_id status (pos p) now db j e (rw st refl)) refl,
  rw (r, f) refl,
  rw (r, f) refl,
  rw (r, f) at,
  rw (r, f) refl,
)

coalesce-some : (o : Option ℕ) (n : ℕ) → (s : ℕ) × (coalesce o n ≡ some s)
coalesce-some none n = (n, refl)
coalesce-some (some s) n = (s, refl)

-- The status and the progress that a run leaves.
abbrev verdict : Outside → ℕ → String × ℕ
verdict w total =
    if not w.tunnel || not w.route
    then ("failed", 0)
    else (if w.canceled
        then ("canceled", clamp (pos (length w.deliveries * 100 / total)))
        else ("completed", 100))

run_closes :
    (job_id : String) (total : ℕ) (w : Outside) (db : Db) (j : DiscoveryJob)
    → w.live ≡ true
    → discovery_job job_id db ≡ ok j
    → is_open j.status ≡ true
    → Closed job_id
        (verdict w total).0
        (verdict w total).1
        (coalesce j.started_at w.started)
        w.finished
        (run job_id total w db)
unfolding run discovery_job Running move_job is_final clamp
run_closes job_id total w db j live e o =
    let (s, at) = coalesce-some j.started_at w.started in
    let there : IsFound job_id j db =
      ground (arith, e, Option-cases (find (λ i. i.id == job_id) db.discovery_jobs)) in
    let db₁ = (set_discovery_job_state job_id "running" (pos 0) w.started db).0 in
    let begun : Running job_id s db₁ = (
      move_job "running" 0 w.started j,
      IsFound-set job_id "running" (pos 0) w.started db j there o,
      refl,
      at,
    ) in
    let received = Running-receive job_id s total 0 none w.deliveries db₁ begun in
    let ready = set-IsFound job_id "running" (pos 0) w.started db j there o in
    elim (Bool-cases (not w.tunnel || not w.route)) [
      | inl refused ↦
          rw (live, ready, refused, at)
            (Closed-set job_id "failed" s 0 w.finished db₁ refl refl begun)
      | inr granted ↦ elim (Bool-cases w.canceled) [
        | inl canceled ↦
            rw (live, ready, granted, canceled, at)
              (Closed-set job_id "canceled" s (length w.deliveries * 100 / total) w.finished
                (receive job_id total 0 none w.deliveries db₁) refl refl received)
        | inr kept ↦
            rw (live, ready, granted, kept, at)
              (Closed-set job_id "completed" s 100 w.finished
                (receive job_id total 0 none w.deliveries db₁) refl refl received)
      ]
    ]

-- What a run comes to on an open job: it has not begun, or it has ended the job one of three ways.
abbrev pub Ended : String → ℕ → Outside → DiscoveryJob → Db → Db → Type 0
Ended job_id total w j db db' =
    let ends : String → ℕ → Type 0 = λ status progress.
      Closed job_id status progress (coalesce j.started_at w.started) w.finished db' in
    ((w.live ≡ false) × (db' ≡ db))
    ⊎ ((w.live ≡ true) × ((w.tunnel ≡ false) ⊎ (w.route ≡ false)) × ends "failed" 0)
    ⊎ ((w.live ≡ true)
        × (w.tunnel ≡ true)
        × (w.route ≡ true)
        × (w.canceled ≡ true)
        × ends "canceled" (clamp (pos (length w.deliveries * 100 / total))))
    ⊎ ((w.live ≡ true)
        × (w.tunnel ≡ true)
        × (w.route ≡ true)
        × (w.canceled ≡ false)
        × ends "completed" 100)

-- Whatever the node answers and the workers send: a run on an open job whose context is canceled
-- before its first step leaves the database as it was; any other ends the job, as failed with 0 % if
-- the tunnel or its route is refused, else as canceled with the share of the probes answered if it was
-- canceled, else as completed with 100 %.
pub run_lem :
    (job_id : String) (total : ℕ) (w : Outside) (db : Db) (j : DiscoveryJob)
    → discovery_job job_id db ≡ ok j
    → is_open j.status ≡ true
    → Ended job_id total w j db (run job_id total w db)
unfolding run
run_lem job_id total w db j e o =
    let closes = λ (live : w.live ≡ true). run_closes job_id total w db j live e o in
    elim (Bool-cases w.live) [
      | inr early ↦ inl (early, rw (run, early) refl)
      | inl live ↦ elim (Bool-cases w.tunnel) [
        | inr refused ↦ inr (inl (live, inl refused, rw (refused) at (closes live)))
        | inl tunnel ↦ elim (Bool-cases w.route) [
          | inr refused ↦ inr (inl (live, inr refused, rw (tunnel, refused) at (closes live)))
          | inl route ↦ elim (Bool-cases w.canceled) [
            | inl canceled ↦ inr (
                inr (
                  inl
                    (live, tunnel, route, canceled, rw (tunnel, route, canceled) at (closes live))))
            | inr kept ↦
                inr
                  (inr (inr (live, tunnel, route, kept, rw (tunnel, route, kept) at (closes live))))
          ]
        ]
      ]
    ]
