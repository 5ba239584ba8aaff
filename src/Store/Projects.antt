-- ===== src/Store/Projects.antt =====
-- backend/internal/store/projects.go: DeleteProject. The networks and scan ports of a project, which
-- go with it, have no table in Db.
use device_management_platfo.Base.{
  ℕ, String, Bool, ◌&&◌, ◌||◌, not, ◌==◌, eqb, count, exists, delete, Result, ok, require, ◌>>=◌,
  ◌>>◌,
}
use device_management_platfo.Store.Schema.{
  Db, Device, Endpoint, is_active, Error, not_found, in_use, transaction, AuditInput, insert_audit,
  TextOrder,
}
use device_management_platfo.Store.Discovery.{is_open}

-- A device of the project, an endpoint of one, and so on: by the joins of the foreign keys.
unfoldable pub device_of : String → Device → Bool
device_of project_id d = d.project_id == project_id

unfoldable pub endpoint_of : String → Db → Endpoint → Bool
endpoint_of project_id db e = exists (λ d. d.id == e.device_id && device_of project_id d) db.devices

unfoldable pub endpoint_id_of : String → Db → String → Bool
endpoint_id_of project_id db endpoint_id =
    exists (λ e. e.id == endpoint_id && endpoint_of project_id db e) db.endpoints

-- DELETE FROM projects WHERE id = ?, with the cascades.
unfoldable pub delete_project_row : String → Db → Db
delete_project_row project_id db = record db {
  projects = delete (λ p. p.id == project_id) db.projects;
  memberships = delete (λ m. m.project_id == project_id) db.memberships;
  devices = delete (device_of project_id) db.devices;
  endpoints = delete (endpoint_of project_id db) db.endpoints;
  port_forwards = delete (λ f. endpoint_id_of project_id db f.endpoint_id) db.port_forwards;
  access_sessions =
      delete (λ s. s.project_id == project_id || endpoint_id_of project_id db s.endpoint_id)
        db.access_sessions;
  discovery_jobs = delete (λ j. j.project_id == project_id) db.discovery_jobs;
  discovery_results =
      delete (λ r. exists (λ j. j.id == r.job_id && j.project_id == project_id) db.discovery_jobs)
        db.discovery_results;
}

module _ (later : TextOrder) where
  -- The sum of the three counts is positive.
  unfoldable pub has_dependencies : String → ℕ → Db → Bool
  has_dependencies project_id now db =
      exists (λ f. endpoint_id_of project_id db f.endpoint_id) db.port_forwards
      || exists (λ s. s.project_id == project_id && is_active s.status && later s.expires_at now)
          db.access_sessions
      || exists (λ j. j.project_id == project_id && is_open j.status) db.discovery_jobs

  unfoldable pub delete_project :
      String → String → ℕ → AuditInput → Db → Db × Result Error (Unit {0})
  delete_project project_id audit_id now audit db = transaction db (do
    require in_use (not (has_dependencies project_id now db))
    require not_found (eqb (count (λ p. p.id == project_id) db.projects) 1)
    db₁ ←
        insert_audit audit_id (record audit { resource_id = project_id }) now
          (delete_project_row project_id db)
    ok (db₁, tt))
