-- ===== src/Store/Discovery.antt =====
-- backend/internal/store/discovery.go: the jobs of a network scan, the services that a scan found,
-- and their import as devices. The networks and ports of a job are kept as they are, not as JSON.
pub mod Jobs
pub mod Machine
pub mod Import
use device_management_platfo.Base.{
  ℕ, ℤ, pos, negsuc, String, Bool, true, false, ◌&&◌, ◌||◌, not, Option, none, some, List, [], ◌∷◌,
  ◌==◌, eqb, ltb, leb, if◌then◌else◌, find, select, count, exists, update, Result, ok, err, or_fail,
  require, ◌>>=◌, ◌>>◌,
}
use device_management_platfo.Store.Schema.{
  Db, DiscoveryPort, DiscoveryJob, DiscoveryResult, Error, not_found, constraint, transaction,
  AuditInput, insert_audit,
}

pub record DiscoveryProbeResult : Type 0 where
  pub host : String
  pub port : ℕ
  pub protocol : String
  pub service_name : String
  pub fingerprint : String
  pub response_summary : String
  pub confidence : ℕ

unfoldable pub discovery_job : String → Db → Result Error DiscoveryJob
discovery_job job_id db = or_fail not_found (find (λ j. j.id == job_id) db.discovery_jobs)

unfoldable pub new_job : String → String → List String → List DiscoveryPort → ℕ → DiscoveryJob
new_job job_id project_id networks ports now = record {
  id = job_id;
  project_id = project_id;
  networks = networks;
  ports = ports;
  status = "queued";
  progress = 0;
  created_at = now;
  started_at = none;
  finished_at = none;
}

unfoldable pub create_discovery_job :
    String
    → String
    → ℕ
    → String
    → List String
    → List DiscoveryPort
    → AuditInput
    → Db
    → Db × Result Error DiscoveryJob
unfolding new_job insert_audit
create_discovery_job job_id audit_id now project_id networks ports audit db = transaction db (do
  require constraint (not (exists (λ j. j.id == job_id) db.discovery_jobs))
  require constraint (exists (λ p. p.id == project_id) db.projects)
  let row = new_job job_id project_id networks ports now
  db₁ ←
      insert_audit audit_id (record audit { resource_id = job_id }) now
        (record db { discovery_jobs = row ∷ db.discovery_jobs })
  ok (db₁, row))

-- The progress, brought into 0 to 100.
unfoldable pub clamp : ℤ → ℕ
clamp (negsuc _) = 0
clamp (pos n) = if ltb 100 n then 100 else n

-- status IN ('queued','running')
unfoldable pub is_open : String → Bool
is_open status = status == "queued" || status == "running"

-- case "completed", "failed", "canceled"
unfoldable pub is_final : String → Bool
is_final status = status == "completed" || status == "failed" || status == "canceled"

-- COALESCE(started_at, ?)
abbrev pub coalesce : Option ℕ → ℕ → Option ℕ
coalesce none now = some now
coalesce (some at) now = some at

-- The assignments of the UPDATE.
unfoldable pub move_job : String → ℕ → ℕ → DiscoveryJob → DiscoveryJob
unfolding is_final
move_job status progress now j =
    if status == "running"
    then record j { status = status; progress = progress; started_at = coalesce j.started_at now }
    else (if is_final status
        then record j { status = status; progress = progress; finished_at = some now }
        else record j { status = status; progress = progress })

-- The WHERE clause of the UPDATE.
unfoldable pub movable : String → String → DiscoveryJob → Bool
unfolding is_open is_final
movable job_id status j =
    j.id == job_id && (not (status == "running" || is_final status) || is_open j.status)

unfoldable pub set_discovery_job_state : String → String → ℤ → ℕ → Db → Db × Result Error (Unit {0})
unfolding clamp move_job movable
set_discovery_job_state job_id status progress now db = (
  record db {
    discovery_jobs =
        update (movable job_id status) (move_job status (clamp progress) now) db.discovery_jobs;
  },
  if eqb (count (movable job_id status) db.discovery_jobs) 0 then err not_found else ok tt,
)

-- UNIQUE(job_id, host, protocol, port)
unfoldable pub same_service : String → String → String → ℕ → DiscoveryResult → Bool
same_service job_id host protocol port r =
    r.job_id == job_id && r.host == host && r.protocol == protocol && eqb r.port port

-- CHECK (protocol IN (...))
unfoldable pub is_protocol : String → Bool
is_protocol p =
    p == "http"
    || p == "https"
    || p == "ssh"
    || p == "rtsp"
    || p == "tcp"
    || p == "rdp"
    || p == "mysql"
    || p == "postgresql"

unfoldable pub new_result : String → String → ℕ → DiscoveryProbeResult → DiscoveryResult
new_result result_id job_id now found = record {
  id = result_id;
  job_id = job_id;
  host = found.host;
  port = found.port;
  protocol = found.protocol;
  service_name = found.service_name;
  fingerprint = found.fingerprint;
  response_summary = found.response_summary;
  confidence = found.confidence;
  import_status = "pending";
  created_at = now;
}

-- DO UPDATE SET
unfoldable pub refresh_result : DiscoveryProbeResult → DiscoveryResult → DiscoveryResult
refresh_result found r = record r {
  service_name = found.service_name;
  fingerprint = found.fingerprint;
  response_summary = found.response_summary;
  confidence = found.confidence;
}

-- The CHECK constraints and foreign key of discovery_results.
unfoldable pub is_valid_result : String → DiscoveryProbeResult → Db → Bool
unfolding is_protocol
is_valid_result job_id found db =
    leb 1 found.port
    && leb found.port 65535
    && is_protocol found.protocol
    && leb found.confidence 100
    && exists (λ j. j.id == job_id) db.discovery_jobs

unfoldable pub save_discovery_result :
    String → String → ℕ → DiscoveryProbeResult → Db → Result Error Db
unfolding same_service new_result refresh_result is_valid_result
save_discovery_result result_id job_id now found db =
    let held = same_service job_id found.host found.protocol found.port in
    if not (is_valid_result job_id found db)
    then err constraint
    else (if exists held db.discovery_results
        then ok (record db {
          discovery_results = update held (refresh_result found) db.discovery_results;
        })
        else (if exists (λ r. r.id == result_id) db.discovery_results
            then err constraint
            else ok (record db {
              discovery_results = new_result result_id job_id now found ∷ db.discovery_results;
            })))

unfoldable pub list_discovery_jobs : String → Db → List DiscoveryJob
list_discovery_jobs project_id db = select (λ j. j.project_id == project_id) db.discovery_jobs

unfoldable pub list_discovery_results : String → Db → List DiscoveryResult
list_discovery_results job_id db = select (λ r. r.job_id == job_id) db.discovery_results
