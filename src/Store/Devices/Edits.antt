-- ===== src/Store/Devices/Edits.antt =====
-- store/devices.go: the operations on devices that are there: UpdateDevice with
-- replaceDeviceEndpointsTx, and DeleteDevice. The ranges over Go's maps go in
-- the order of the table.
use device_management_platfo.Base.{
  ℕ, suc, String, Bool, true, ◌&&◌, ◌||◌, not, Option, none, some, List, [], ◌∷◌, ◌==◌, eqb,
  if◌then◌else◌, count, exists, update, delete, Result, ok, err, require, ◌>>=◌, ◌>>◌,
}
use device_management_platfo.Store.Schema.{
  Db, Device, Endpoint, is_active, Error, not_found, endpoint_in_use, resource_in_use, constraint,
  transaction, AuditInput, insert_audit, TextOrder,
}
use device_management_platfo.Store.Devices.{
  CreateEndpointInput, UpdateDeviceInput, Draws, endpoint_access_type, device_endpoints,
  device_by_id, is_valid_endpoint, is_taken, insert_endpoint, new_endpoint,
}

-- DELETE FROM endpoints WHERE id = ?, with the cascades of the foreign keys.
unfoldable pub delete_endpoint : String → Db → Db
delete_endpoint endpoint_id db = record db {
  endpoints = delete (λ e. e.id == endpoint_id) db.endpoints;
  port_forwards = delete (λ f. f.endpoint_id == endpoint_id) db.port_forwards;
  access_sessions = delete (λ s. s.endpoint_id == endpoint_id) db.access_sessions;
}

-- desired names the endpoint as one that is there.
unfoldable pub is_kept : List CreateEndpointInput → String → Bool
is_kept desired endpoint_id =
    exists (λ d. not (d.id == "") && d.id == endpoint_id && not d.is_new) desired

-- The first loop: every named endpoint is one of the device or new.
unfoldable pub all_known : List Endpoint → List CreateEndpointInput → Bool
all_known existing [] = true
all_known existing (d ∷ ds) =
    let rest = all_known existing ds in
    (d.id == "" || exists (λ e. e.id == d.id) existing || d.is_new) && rest

-- The assignments of the UPDATE of an endpoint. The right sides are of the row before.
unfoldable pub set_endpoint : CreateEndpointInput → ℕ → Endpoint → Endpoint
set_endpoint d now e =
    let same = e.protocol == d.protocol && eqb e.target_port d.target_port in
    record e {
      name = d.name;
      protocol = d.protocol;
      target_port = d.target_port;
      access_type = endpoint_access_type d.protocol;
      verification_status = if same then e.verification_status else "unverified";
      last_verified_at = if same then e.last_verified_at else none;
      tls_server_name = d.tls_server_name;
      ssh_credential_ref =
          if d.credential_ref == "" then e.ssh_credential_ref else d.credential_ref;
      ssh_auth_method = if d.ssh_auth_method == "" then e.ssh_auth_method else d.ssh_auth_method;
      ssh_username = if d.ssh_username == "" then e.ssh_username else d.ssh_username;
      ssh_key_path =
          if d.ssh_auth_method == "" && d.ssh_key_path == ""
          then e.ssh_key_path
          else d.ssh_key_path;
      ssh_host_key_fingerprint = d.ssh_host_key_fingerprint;
      updated_at = now;
    }

unfoldable pub is_endpoint : String → String → Endpoint → Bool
is_endpoint endpoint_id device_id e = e.id == endpoint_id && e.device_id == device_id

-- UPDATE endpoints SET ... WHERE id = ? AND device_id = ?, which may affect no row.
unfoldable pub update_endpoint : String → CreateEndpointInput → ℕ → Db → Result Error Db
update_endpoint device_id d now db =
    let hit = is_endpoint d.id device_id in
    do
      require constraint (
          not (
            exists
              (λ e.
                hit e
                && (is_taken (set_endpoint d now e) db.endpoints
                    || not (is_valid_endpoint (set_endpoint d now e))))
              db.endpoints))
      ok (record db { endpoints = update hit (set_endpoint d now) db.endpoints })

-- The last loop, from the nth drawn id on.
unfoldable pub put_endpoints : Draws → ℕ → String → List CreateEndpointInput → Db → Result Error Db
put_endpoints draws n device_id [] db = ok db
put_endpoints draws n device_id (d ∷ ds) db = do
  db₁ ←
      if d.id == ""
      then insert_endpoint (new_endpoint (draws.endpoint_id n) device_id draws.now d) db
      else update_endpoint device_id d draws.now db
  put_endpoints draws (if d.id == "" then suc n else n) device_id ds db₁

-- The third loop; whether an endpoint is busy is asked before the first row is deleted.
unfoldable pub drop_endpoints :
    (String → Bool) → List CreateEndpointInput → List Endpoint → Db → Result Error Db
drop_endpoints busy desired [] db = ok db
drop_endpoints busy desired (e ∷ existing) db =
    if is_kept desired e.id then drop_endpoints busy desired existing db else (do
      require endpoint_in_use (not (busy e.id))
      drop_endpoints busy desired existing (delete_endpoint e.id db))

module _ (later : TextOrder) where
  -- An endpoint with a port forward, or with an active session that is not expired.
  unfoldable pub is_busy : ℕ → Db → String → Bool
  is_busy now db endpoint_id =
      exists (λ f. f.endpoint_id == endpoint_id) db.port_forwards
      || exists (λ s. s.endpoint_id == endpoint_id && is_active s.status && later s.expires_at now)
          db.access_sessions

  -- The second loop: no named endpoint that is busy changes its protocol or port.
  unfoldable pub no_busy_change : ℕ → Db → List Endpoint → List CreateEndpointInput → Bool
  no_busy_change now db existing [] = true
  no_busy_change now db existing (d ∷ ds) =
      let rest = no_busy_change now db existing ds in
      not (
        exists
          (λ e.
            not (d.id == "")
            && e.id == d.id
            && not d.is_new
            && is_busy now db e.id
            && (not (e.protocol == d.protocol) || not (eqb e.target_port d.target_port)))
          existing)
      && rest

  unfoldable pub replace_device_endpoints :
      Draws → String → List CreateEndpointInput → Db → Result Error Db
  replace_device_endpoints draws device_id desired db = do
    let existing = device_endpoints device_id db
    require not_found (all_known existing desired)
    require endpoint_in_use (no_busy_change draws.now db existing desired)
    db₁ ← drop_endpoints (is_busy draws.now db) desired existing db
    put_endpoints draws 0 device_id desired db₁

  -- The first UPDATE of UpdateDevice.
  unfoldable pub rename_device : UpdateDeviceInput → ℕ → Device → Device
  rename_device input now d = record d {
    host = if input.host == "" then d.host else input.host;
    name = input.name;
    device_type = input.device_type;
    vendor = input.vendor;
    updated_at = now;
  }

  unfoldable pub is_device : String → String → Device → Bool
  is_device project_id device_id d = d.id == device_id && d.project_id == project_id

  -- UNIQUE(project_id, host), of a row after the UPDATE with the others.
  unfoldable pub host_taken : UpdateDeviceInput → ℕ → String → String → List Device → Bool
  host_taken input now project_id device_id rows =
      exists
        (λ d.
          is_device project_id device_id d
          && exists
              (λ other.
                not (other.id == d.id)
                && other.project_id == d.project_id
                && other.host == (rename_device input now d).host)
              rows)
        rows

  unfoldable pub replace_if_given :
      Draws → String → Option (List CreateEndpointInput) → Db → Result Error Db
  replace_if_given draws device_id none db = ok db
  replace_if_given draws device_id (some desired) db =
      replace_device_endpoints draws device_id desired db

  unfoldable pub update_device :
      Draws
      → String
      → String
      → UpdateDeviceInput
      → AuditInput
      → Db
      → Db × Result Error (Device × List Endpoint)
  update_device draws project_id device_id input audit db =
      let hit = is_device project_id device_id in
      let written = transaction {0} db (do
        require constraint (not (host_taken input draws.now project_id device_id db.devices))
        require not_found (eqb (count hit db.devices) 1)
        db₁ ←
            replace_if_given draws device_id input.endpoints
              (record db { devices = update hit (rename_device input draws.now) db.devices })
        db₂ ← insert_audit draws.audit_id (record audit { resource_id = device_id }) draws.now db₁
        ok (db₂, tt)) in
      (
        written.0,
        elim written.1 [ err e ↦ err e | ok _ ↦ device_by_id project_id device_id written.0 ],
      )

  -- The rows that DELETE FROM devices takes along.
  unfoldable pub delete_endpoints : List Endpoint → Db → Db
  delete_endpoints [] db = db
  delete_endpoints (e ∷ es) db = delete_endpoints es (delete_endpoint e.id db)

  unfoldable pub delete_device :
      Draws → String → String → AuditInput → Db → Db × Result Error (Unit {0})
  delete_device draws project_id device_id audit db =
      let hit = is_device project_id device_id in
      let endpoints = device_endpoints device_id db in
      transaction db (do
        require resource_in_use (not (exists (λ e. is_busy draws.now db e.id) endpoints))
        require not_found (eqb (count hit db.devices) 1)
        db₁ ←
            insert_audit draws.audit_id (record audit { resource_id = device_id }) draws.now
              (delete_endpoints endpoints (record db { devices = delete hit db.devices }))
        ok (db₁, tt))
