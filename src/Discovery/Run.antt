-- ===== src/Discovery/Run.antt =====
-- backend/internal/discovery/manager.go: the register of running scans (Start, Cancel and the end of
-- run), and run itself. The node's answers, what the workers send, and whether the run was canceled
-- are parameters. Cancel waits for the end of the run, which is the later call of `ended`.
use Prim.Native.Nat.{◌*◌, ◌/◌}
use device_management_platfo.Base.{
  ℕ, pos, ◌+◌, String, Bool, true, false, ◌||◌, not, Option, none, some, List, [], ◌∷◌, eqb, ltb,
  if◌then◌else◌, is_some, length, lookup, insert, remove, Result, ok, err, or_fail, require, ◌>>=◌,
  ◌>>◌,
}
use device_management_platfo.Store.{Db, DiscoveryJob}
use device_management_platfo.Store.Discovery.{
  DiscoveryProbeResult, set_discovery_job_state, save_discovery_result,
}

-- The map cancels: whether the context of a run is canceled.
pub record DiscoveryManager : Type 0 where
  pub cancels : List (String × Bool)

pub data StartError : Type 0 where
  no_client bad_network no_probes too_many already_running : StartError

-- Start, with the number of hosts that countHosts returns. The result is the number of probes.
unfoldable pub start :
    DiscoveryJob → ℕ → Option ℕ → DiscoveryManager → Result StartError (DiscoveryManager × ℕ)
start job client_id hosts m = do
  require no_client (not (ltb client_id 1))
  total_hosts ← or_fail bad_network hosts
  require no_probes (not (eqb total_hosts 0 || eqb (length job.ports) 0))
  require too_many (not (ltb 2_000_000 (total_hosts * length job.ports)))
  require already_running (not (is_some (lookup job.id m.cancels)))
  ok (record m { cancels = insert job.id false m.cancels }, total_hosts * length job.ports)

-- Cancel, up to the wait.
unfoldable pub cancel : String → DiscoveryManager → DiscoveryManager × Bool
cancel job_id m =
    if is_some (lookup job_id m.cancels)
    then (record m { cancels = insert job_id true m.cancels }, true)
    else (m, false)

-- The deferred function of run.
unfoldable pub ended : String → DiscoveryManager → DiscoveryManager
ended job_id m = record m { cancels = remove job_id m.cancels }

-- What the loop receives from the workers, with the id and the time of what it writes for it.
pub record Delivery : Type 0 where
  pub result : Option DiscoveryProbeResult
  pub result_id : String
  pub now : ℕ

-- An error of the store is dropped.
unfoldable pub save : String → Delivery → Db → Db
save job_id d db = elim d.result [
  | none ↦ db
  | some found ↦ elim (save_discovery_result d.result_id job_id d.now found db) [
    | ok db' ↦ db'
    | err _ ↦ db
  ]
]

abbrev pub is_last : Option ℕ → ℕ → Bool
is_last none progress = false
is_last (some last) progress = eqb progress last

-- The loop over the results; `last` is none for -1.
unfoldable pub receive : String → ℕ → ℕ → Option ℕ → List Delivery → Db → Db
unfolding save
receive job_id total completed last [] db = db
receive job_id total completed last (d ∷ ds) db =
    let progress = (completed + 1) * 100 / total in
    let saved = save job_id d db in
    receive job_id total (completed + 1) (some progress) ds (
      if is_last last progress
      then saved
      else (set_discovery_job_state job_id "running" (pos progress) d.now saved).0)

pub record Outside : Type 0 where
  -- The context is live at the first update of the state.
  pub live : Bool
  -- SetManagedTunnel and SOCKSRoute return no error.
  pub tunnel : Bool
  pub route : Bool
  pub deliveries : List Delivery
  -- The context is canceled after the loop.
  pub canceled : Bool
  pub started : ℕ
  pub finished : ℕ

unfoldable pub run : String → ℕ → Outside → Db → Db
unfolding receive
run job_id total w db =
    let begun = set_discovery_job_state job_id "running" (pos 0) w.started db in
    let finish = λ (status : String) (progress : ℕ) (db' : Db).
      (set_discovery_job_state job_id status (pos progress) w.finished db').0 in
    let received = receive job_id total 0 none w.deliveries begun.0 in
    if not w.live then db else elim begun.1 [
      | err _ ↦ begun.0
      | ok _ ↦
          if not w.tunnel || not w.route
          then finish "failed" 0 begun.0
          else (if w.canceled
              then finish "canceled" (length w.deliveries * 100 / total) received
              else finish "completed" 100 received)
    ]
