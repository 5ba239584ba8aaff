-- ===== src/Store/Devices.antt =====
-- backend/internal/store/devices.go: the devices of a project and their endpoints. A device is
-- returned as its row and the rows of its endpoints.

pub mod Edits
pub mod Verify
pub mod Serves
pub mod Busy
pub mod Batch
use device_management_platfo.Base.{
  ℕ, suc, ◌+◌, String, Bool, true, false, ◌&&◌, ◌||◌, not, Option, none, some, List, [], ◌∷◌, ◌==◌,
  eqb, ltb, leb, if◌then◌else◌, length, find, select, count, exists, update, delete, Result, ok,
  err, or_fail, require, ◌>>=◌, ◌>>◌,
}
use device_management_platfo.Store.Schema.{
  Db, Device, Endpoint, is_active, Error, not_found, constraint, transaction, AuditInput,
  insert_audit, TextOrder,
}
use device_management_platfo.Store.Discovery.{is_protocol}

pub record CreateEndpointInput : Type 0 where
  pub id : String
  pub is_new : Bool
  pub name : String
  pub protocol : String
  pub target_port : ℕ
  pub tls_server_name : String
  pub credential_ref : String
  pub ssh_auth_method : String
  pub ssh_username : String
  pub ssh_key_path : String
  pub ssh_host_key_fingerprint : String

pub record CreateDeviceInput : Type 0 where
  pub host : String
  pub name : String
  pub device_type : String
  pub vendor : String
  pub source : String
  pub endpoints : List CreateEndpointInput

pub record UpdateDeviceInput : Type 0 where
  pub host : String
  pub name : String
  pub device_type : String
  pub vendor : String
  pub endpoints : Option (List CreateEndpointInput)

-- What is drawn for a device: its id, the id of its audit row, the ids of its endpoints, the time.
pub record Draws : Type 0 where
  pub device_id : String
  pub audit_id : String
  pub endpoint_id : ℕ → String
  pub now : ℕ

unfoldable pub endpoint_access_type : String → String
endpoint_access_type protocol =
    if protocol == "http" || protocol == "https"
    then "web_proxy"
    else (if protocol == "ssh" then "web_ssh" else "port_forward")

unfoldable pub device_endpoints : String → Db → List Endpoint
device_endpoints device_id db = select (λ e. e.device_id == device_id) db.endpoints

unfoldable pub with_endpoints : Db → List Device → List (Device × List Endpoint)
with_endpoints db [] = []
with_endpoints db (d ∷ ds) = (d, device_endpoints d.id db) ∷ with_endpoints db ds

-- Without the order of the listing.
unfoldable pub list_devices : String → Db → Result Error (List (Device × List Endpoint))
list_devices project_id db = do
  require not_found (exists (λ p. p.id == project_id) db.projects)
  ok (with_endpoints db (select (λ d. d.project_id == project_id) db.devices))

unfoldable pub device_by_id : String → String → Db → Result Error (Device × List Endpoint)
device_by_id project_id device_id db = do
  devices ← list_devices project_id db
  or_fail not_found (find (λ d. d.0.id == device_id) devices)

-- The keys and checks of devices: PRIMARY KEY, UNIQUE(project_id, host), the project, the source.
unfoldable pub insert_device_row : Device → Db → Result Error Db
insert_device_row row db = do
  require constraint (not (exists (λ d. d.id == row.id) db.devices))
  require constraint
      (not (exists (λ d. d.project_id == row.project_id && d.host == row.host) db.devices))
  require constraint (exists (λ p. p.id == row.project_id) db.projects)
  require constraint (row.source == "manual" || row.source == "discovery" || row.source == "import")
  ok (record db { devices = row ∷ db.devices })

-- CHECK of the protocol, the port and the method of a login.
unfoldable pub is_valid_endpoint : Endpoint → Bool
is_valid_endpoint e =
    is_protocol e.protocol
    && leb 1 e.target_port
    && leb e.target_port 65535
    && (e.ssh_auth_method == "" || e.ssh_auth_method == "password" || e.ssh_auth_method == "key")

-- UNIQUE(device_id, protocol, target_port), beside the row of an id.
unfoldable pub is_taken : Endpoint → List Endpoint → Bool
is_taken row rows =
    exists
      (λ e.
        not (e.id == row.id)
        && e.device_id == row.device_id
        && e.protocol == row.protocol
        && eqb e.target_port row.target_port)
      rows

unfoldable pub insert_endpoint : Endpoint → Db → Result Error Db
insert_endpoint row db = do
  require constraint (not (exists (λ e. e.id == row.id) db.endpoints))
  require constraint (not (is_taken row db.endpoints))
  require constraint (is_valid_endpoint row)
  require constraint (exists (λ d. d.id == row.device_id) db.devices)
  ok (record db { endpoints = row ∷ db.endpoints })

unfoldable pub new_endpoint : String → String → ℕ → CreateEndpointInput → Endpoint
new_endpoint endpoint_id device_id now input = record {
  id = endpoint_id;
  device_id = device_id;
  name = input.name;
  protocol = input.protocol;
  target_port = input.target_port;
  access_type = endpoint_access_type input.protocol;
  tls_server_name = input.tls_server_name;
  ssh_credential_ref = input.credential_ref;
  ssh_auth_method = input.ssh_auth_method;
  ssh_username = input.ssh_username;
  ssh_key_path = input.ssh_key_path;
  ssh_host_key_fingerprint = input.ssh_host_key_fingerprint;
  verification_status = "unverified";
  last_verified_at = none;
  created_at = now;
  updated_at = now;
}

-- The loop of insertDeviceTx, from the nth endpoint on.
unfoldable pub insert_endpoints :
    Draws → ℕ → List CreateEndpointInput → Db → Result Error (Db × List Endpoint)
insert_endpoints draws n [] db = ok (db, [])
insert_endpoints draws n (input ∷ inputs) db =
    let endpoint_id = if input.id == "" then draws.endpoint_id n else input.id in
    let row = new_endpoint endpoint_id draws.device_id draws.now input in
    do
      db₁ ← insert_endpoint row db
      rest ← insert_endpoints draws (suc n) inputs db₁
      ok (rest.0, row ∷ rest.1)

unfoldable pub new_device : Draws → String → CreateDeviceInput → Device
new_device draws project_id input = record {
  id = draws.device_id;
  project_id = project_id;
  host = input.host;
  name = input.name;
  device_type = input.device_type;
  vendor = input.vendor;
  source = input.source;
  status = "unknown";
  last_seen_at = none;
  created_at = draws.now;
  updated_at = draws.now;
}

unfoldable pub insert_device :
    Draws
    → String
    → CreateDeviceInput
    → AuditInput
    → Db
    → Result Error (Db × (Device × List Endpoint))
insert_device draws project_id input audit db = do
  let row = new_device draws project_id input
  db₁ ← insert_device_row row db
  inserted ← insert_endpoints draws 0 input.endpoints db₁
  db₂ ←
      insert_audit draws.audit_id (record audit { resource_id = draws.device_id }) draws.now
        inserted.0
  ok (db₂, (row, inserted.1))

unfoldable pub create_device :
    Draws
    → String
    → CreateDeviceInput
    → AuditInput
    → Db
    → Db × Result Error (Device × List Endpoint)
create_device draws project_id input audit db =
    transaction db (insert_device draws project_id input audit db)

-- The loop of CreateDevices.
unfoldable pub insert_devices :
    String
    → AuditInput
    → List (Draws × CreateDeviceInput)
    → Db
    → Result Error (Db × List (Device × List Endpoint))
insert_devices project_id audit [] db = ok (db, [])
insert_devices project_id audit (input ∷ inputs) db = do
  inserted ← insert_device input.0 project_id input.1 audit db
  rest ← insert_devices project_id audit inputs inserted.0
  ok (rest.0, inserted.1 ∷ rest.1)

unfoldable pub create_devices :
    String
    → AuditInput
    → List (Draws × CreateDeviceInput)
    → Db
    → Db × Result Error (List (Device × List Endpoint))
create_devices project_id audit inputs db =
    transaction db (insert_devices project_id audit inputs db)
