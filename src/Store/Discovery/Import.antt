-- ===== src/Store/Discovery/Import.antt =====
-- store/discovery.go, ImportDiscoveryDevice: a host that a completed job found becomes a device.
use device_management_platfo.Base.{
  ℕ, suc, String, Bool, ◌&&◌, none, some, List, [], ◌∷◌, ◌==◌, eqb, if◌then◌else◌, find, exists,
  update, Result, ok, err, require, ◌>>=◌, ◌>>◌,
}
use device_management_platfo.Store.Schema.{
  Db, Device, Endpoint, DiscoveryResult, Error, not_found, constraint, not_completed, transaction,
  AuditInput, insert_audit,
}
use device_management_platfo.Store.Discovery.{discovery_job, same_service}
use device_management_platfo.Store.Devices.{
  CreateEndpointInput, CreateDeviceInput, Draws, new_device, new_endpoint, insert_device_row,
  insert_endpoint, is_valid_endpoint, device_by_id,
}

-- SELECT COUNT(*) of the results of a service, as the test that it is positive.
unfoldable pub is_discovered : String → String → CreateEndpointInput → Db → Bool
is_discovered job_id host e db =
    exists (same_service job_id host e.protocol e.target_port) db.discovery_results

unfoldable pub refresh_device : CreateDeviceInput → ℕ → Device → Device
refresh_device input now d = record d {
  name = input.name;
  device_type = input.device_type;
  vendor = input.vendor;
  status = "online";
  last_seen_at = some now;
  updated_at = now;
}

-- The device of the host: its id, with the row updated, or a new row.
unfoldable pub place_device : Draws → String → CreateDeviceInput → Db → Result Error (Db × String)
place_device draws project_id input db =
    elim (find (λ d. d.project_id == project_id && d.host == input.host) db.devices) [
      | some d ↦ ok (
        record db {
          devices = update (λ x. x.id == d.id) (refresh_device input draws.now) db.devices;
        },
        d.id,
      )
      | none ↦ do
        db₁ ←
            insert_device_row
              (record (new_device draws project_id input) {
                source = "discovery";
                status = "online";
                last_seen_at = some draws.now;
              })
              db
        ok (db₁, draws.device_id)
    ]

-- The row of the INSERT; the method, the user and the key of a login take their defaults.
unfoldable pub found_endpoint : Bool → String → String → ℕ → CreateEndpointInput → Endpoint
found_endpoint discovered endpoint_id device_id now e =
    record (new_endpoint endpoint_id device_id now e) {
      verification_status = if discovered then "verified" else "unverified";
      last_verified_at = if discovered then some now else none;
      ssh_auth_method = "";
      ssh_username = "";
      ssh_key_path = "";
    }

-- ON CONFLICT(device_id,protocol,target_port) DO UPDATE SET
unfoldable pub refresh_endpoint : Bool → ℕ → CreateEndpointInput → Endpoint → Endpoint
refresh_endpoint discovered now input e = record e {
  name = input.name;
  verification_status = if discovered then "verified" else e.verification_status;
  last_verified_at = if discovered then some now else e.last_verified_at;
  tls_server_name = input.tls_server_name;
  ssh_credential_ref =
      if input.credential_ref == "" then e.ssh_credential_ref else input.credential_ref;
  ssh_host_key_fingerprint = input.ssh_host_key_fingerprint;
  updated_at = now;
}

unfoldable pub is_service : String → CreateEndpointInput → Endpoint → Bool
is_service device_id input e =
    e.device_id == device_id && e.protocol == input.protocol && eqb e.target_port input.target_port

unfoldable pub upsert_endpoint :
    Bool → String → String → ℕ → CreateEndpointInput → Db → Result Error Db
upsert_endpoint discovered endpoint_id device_id now input db =
    let row = found_endpoint discovered endpoint_id device_id now input in
    if exists (is_service device_id input) db.endpoints
    then (do
      require constraint (is_valid_endpoint row)
      ok (record db {
        endpoints =
            update (is_service device_id input) (refresh_endpoint discovered now input)
              db.endpoints;
      }))
    else insert_endpoint row db

unfoldable pub mark_imported : DiscoveryResult → DiscoveryResult
mark_imported r = record r { import_status = "imported" }

-- The loop over the endpoints, from the nth on.
unfoldable pub import_endpoints :
    Draws → ℕ → String → String → String → List CreateEndpointInput → Db → Result Error Db
import_endpoints draws n job_id host device_id [] db = ok db
import_endpoints draws n job_id host device_id (input ∷ inputs) db =
    let discovered = is_discovered job_id host input db in
    do
      db₁ ← upsert_endpoint discovered (draws.endpoint_id n) device_id draws.now input db
      import_endpoints draws (suc n) job_id host device_id inputs (
          if discovered
          then record db₁ {
            discovery_results =
                update (same_service job_id host input.protocol input.target_port) mark_imported
                  db₁.discovery_results;
          }
          else db₁)

unfoldable pub import_discovery_device :
    Draws
    → String
    → CreateDeviceInput
    → AuditInput
    → Db
    → Db × Result Error (Device × List Endpoint)
import_discovery_device draws job_id input audit db =
    let job = discovery_job job_id db in
    let written : Db × Result Error (String × String) = transaction db (do
      j ← job
      require not_completed (j.status == "completed")
      require not_found
          (exists (λ r. r.job_id == job_id && r.host == input.host) db.discovery_results)
      placed ← place_device draws j.project_id input db
      db₁ ← import_endpoints draws 0 job_id input.host placed.1 input.endpoints placed.0
      db₂ ← insert_audit draws.audit_id (record audit { resource_id = placed.1 }) draws.now db₁
      ok (db₂, (j.project_id, placed.1))) in
    (
      written.0,
      elim written.1 [ err e ↦ err e | ok place ↦ device_by_id place.0 place.1 written.0 ],
    )
