-- ===== src/Store/Devices/Verify.antt =====
-- store/devices.go, VerifyDeviceEndpoints: the outcome of a probe of every endpoint of a device.
-- Go's map of the statuses is a list without repeated ids.
use device_management_platfo.Base.{
  ℕ, String, Bool, ◌&&◌, not, some, List, [], ◌∷◌, ◌==◌, eqb, ltb, if◌then◌else◌, length, count,
  exists, update, Result, ok, err, require, ◌>>=◌, ◌>>◌,
}
use device_management_platfo.Store.Schema.{
  Db, Device, Endpoint, Error, not_found, no_statuses, uncovered_endpoint, unknown_endpoint,
  transaction, AuditInput, insert_audit,
}
use device_management_platfo.Store.Devices.{Draws, device_endpoints, device_by_id}
use device_management_platfo.Store.Devices.Edits.{is_endpoint}

-- The UPDATE of one endpoint by a verification.
unfoldable pub mark_verified : Bool → ℕ → Endpoint → Endpoint
mark_verified verified now e = record e {
  verification_status = if verified then "verified" else "failed";
  last_verified_at = if verified then some now else e.last_verified_at;
  updated_at = now;
}

unfoldable pub mark_all : String → ℕ → List (String × Bool) → Db → Result Error Db
mark_all device_id now [] db = ok db
mark_all device_id now (entry ∷ statuses) db = do
  let hit = is_endpoint entry.0 device_id
  require unknown_endpoint (eqb (count hit db.endpoints) 1)
  mark_all device_id now statuses
      (record db { endpoints = update hit (mark_verified entry.1 now) db.endpoints })

unfoldable pub verified_count : List (String × Bool) → ℕ
verified_count statuses = count (λ entry. entry.1) statuses

unfoldable pub mark_device : ℕ → ℕ → Device → Device
mark_device verified now d = record d {
  status = if ltb 0 verified then "online" else "offline";
  last_seen_at = if ltb 0 verified then some now else d.last_seen_at;
  updated_at = now;
}

unfoldable pub verify_device_endpoints :
    Draws
    → String
    → String
    → List (String × Bool)
    → AuditInput
    → Db
    → Db × Result Error (Device × List Endpoint)
verify_device_endpoints draws project_id device_id statuses audit db =
    let hit : Device → Bool = λ d. d.id == device_id && d.project_id == project_id in
    let endpoint_count =
      if exists hit db.devices then length (device_endpoints device_id db) else 0 in
    let written = transaction {0} db (do
      require no_statuses (not (eqb (length statuses) 0))
      require not_found (not (eqb endpoint_count 0))
      require uncovered_endpoint (eqb (length statuses) endpoint_count)
      db₁ ← mark_all device_id draws.now statuses db
      db₂ ←
          insert_audit draws.audit_id (record audit { resource_id = device_id }) draws.now
            (record db₁ {
              devices = update hit (mark_device (verified_count statuses) draws.now) db₁.devices;
            })
      ok (db₂, tt)) in
    (
      written.0,
      elim written.1 [ err e ↦ err e | ok _ ↦ device_by_id project_id device_id written.0 ],
    )
