-- ===== src/Store/Access.antt =====
-- backend/internal/store/access_sessions.go: the browser's access sessions to devices. The text order
-- of times is the section's parameter. Two readings of the clock in one method are two arguments.
pub mod Final
pub mod Once
pub mod Grants
pub mod Live
pub mod Routes
pub mod Sweep
use device_management_platfo.Base.{
  ℕ, ◌+◌, ◌*◌, String, Bool, true, false, ◌&&◌, ◌||◌, not, Option, none, some, List, [], ◌∷◌, ◌==◌,
  leb, eqb, if◌then◌else◌, is_none, is_some, find, select, count, exists, update, map, Result, ok,
  err, or_fail, require, ◌>>=◌, ◌>>◌,
}
use device_management_platfo.Store.Schema.{
  Db, AccessSession, AuthSession, User, Endpoint, Device, Project, Status, active, revoked, expired,
  is_active, Error, not_found, in_use, constraint, transaction, AuditInput, insert_audit, TextOrder,
  second,
}

pub record EndpointRoute : Type 0 where
  pub endpoint_id : String
  pub endpoint_name : String
  pub protocol : String
  pub target_port : ℕ
  pub access_type : String
  pub tls_server_name : String
  pub credential_ref : String
  pub ssh_auth_method : String
  pub ssh_username : String
  pub ssh_key_path : String
  pub ssh_host_key_fingerprint : String
  pub device_id : String
  pub device_name : String
  pub host : String
  pub project_id : String
  pub project_name : String
  pub node_id : String
  pub client_id : ℕ

abbrev pub or_zero : Option ℕ → ℕ
or_zero none = 0
or_zero (some n) = n

route_of : Endpoint → Device → Project → EndpointRoute
route_of e d p = record {
  endpoint_id = e.id;
  endpoint_name = e.name;
  protocol = e.protocol;
  target_port = e.target_port;
  access_type = e.access_type;
  tls_server_name = e.tls_server_name;
  credential_ref = e.ssh_credential_ref;
  ssh_auth_method = e.ssh_auth_method;
  ssh_username = e.ssh_username;
  ssh_key_path = e.ssh_key_path;
  ssh_host_key_fingerprint = e.ssh_host_key_fingerprint;
  device_id = d.id;
  device_name = d.name;
  host = d.host;
  project_id = p.id;
  project_name = p.name;
  node_id = p.node_id;
  client_id = or_zero p.client_id;
}

unfoldable pub endpoint_route : Db → String → Result Error EndpointRoute
unfolding route_of
endpoint_route db endpoint_id = do
  e ← or_fail not_found (find (λ e. e.id == endpoint_id) db.endpoints)
  d ← or_fail not_found (find (λ d. d.id == e.device_id) db.devices)
  p ← or_fail not_found (find (λ p. p.id == d.project_id) db.projects)
  ok (route_of e d p)

-- The joins of a session with its endpoint, device and project.
unfoldable pub joins : Db → AccessSession → Bool
joins db s = elim (endpoint_route db s.endpoint_id) [
  | ok route ↦ route.project_id == s.project_id
  | err _ ↦ false
]

-- The joins of a session with its endpoint and that endpoint's device.
unfoldable pub has_device : Db → AccessSession → Bool
has_device db s = elim (find (λ e. e.id == s.endpoint_id) db.endpoints) [
  | none ↦ false
  | some e ↦ exists (λ d. d.id == e.device_id) db.devices
]

-- `a.user_id = s.user_id`, which NULL fails.
abbrev pub is_user : Option String → String → Bool
is_user none user_id = false
is_user (some id) user_id = id == user_id

unfoldable pub enabled_user : Db → String → Bool
enabled_user db user_id = exists (λ u. u.id == user_id && u.enabled) db.users

pub record CreateAccessSessionInput : Type 0 where
  pub user_id : Option String
  pub auth_session_id : String
  pub project_id : String
  pub endpoint_id : String
  pub token_hash : String
  pub route_label : String
  pub grant_hash : String
  pub mode : String
  pub source_ip : String
  pub expires_at : ℕ

unfoldable pub new_session : String → CreateAccessSessionInput → ℕ → AccessSession
new_session session_id input now = record {
  id = session_id;
  user_id = input.user_id;
  auth_session_id = input.auth_session_id;
  project_id = input.project_id;
  endpoint_id = input.endpoint_id;
  token_hash = input.token_hash;
  route_label = input.route_label;
  grant_hash = input.grant_hash;
  grant_exchanged_at = none;
  mode = input.mode;
  source_ip = input.source_ip;
  status = active;
  expires_at = input.expires_at;
  started_at = now;
  ended_at = none;
  last_seen_at = now;
}

-- The foreign keys of access_sessions.
references : Db → CreateAccessSessionInput → Bool
references db input =
    elim input.user_id [ none ↦ true | some id ↦ exists (λ u. u.id == id) db.users ]
    && exists (λ a. a.id == input.auth_session_id) db.auth_sessions
    && exists (λ p. p.id == input.project_id) db.projects
    && exists (λ e. e.id == input.endpoint_id) db.endpoints

-- INSERT INTO access_sessions: a token that is there is ErrInUse.
insert_session : Db → AccessSession → CreateAccessSessionInput → Result Error Db
unfolding references
insert_session db row input = do
  require in_use (not (exists (λ s. s.token_hash == row.token_hash) db.access_sessions))
  require constraint (not (exists (λ s. s.id == row.id) db.access_sessions))
  require constraint (references db input)
  ok (record db { access_sessions = row ∷ db.access_sessions })

unfoldable pub create_access_session :
    String
    → String
    → ℕ
    → CreateAccessSessionInput
    → AuditInput
    → Db
    → Db × Result Error AccessSession
unfolding new_session insert_session insert_audit
create_access_session session_id audit_id now input audit db = transaction db (do
  let row = new_session session_id input now
  db₁ ← insert_session db row input
  db₂ ← insert_audit audit_id (record audit { resource_id = session_id }) now db₁
  ok (db₂, row))

abbrev pub access_activity_touch_interval : ℕ
access_activity_touch_interval = 30 * second

-- UPDATE access_sessions SET status = 'revoked', ended_at = now
unfoldable pub close_session : Status → ℕ → AccessSession → AccessSession
close_session status now s = record s { status = status; ended_at = some now }

unfoldable pub revoke_access_session :
    String → String → ℕ → AuditInput → Db → Db × Result Error (Unit {0})
unfolding close_session insert_audit
revoke_access_session session_id audit_id now audit db =
    let hit : AccessSession → Bool = λ s. s.id == session_id && is_active s.status in
    transaction db (do
      require not_found (not (eqb (count hit db.access_sessions) 0))
      db₂ ←
          insert_audit audit_id (record audit { resource_id = session_id }) now
            (record db {
              access_sessions = update hit (close_session revoked now) db.access_sessions;
            })
      ok (db₂, tt))

-- endpoint_id IN (SELECT id FROM endpoints WHERE device_id=?)
unfoldable pub on_device : Db → String → AccessSession → Bool
on_device db device_id s =
    exists (λ e. e.id == s.endpoint_id && e.device_id == device_id) db.endpoints

unfoldable pub of_resource : Db → String → String → AccessSession → Bool
unfolding on_device
of_resource db project_id device_id s =
    s.project_id == project_id
    && is_active s.status
    && (device_id == "" || on_device db device_id s)

unfoldable pub revoke_resource_sessions : String → String → ℕ → Db → Db × List String
unfolding of_resource close_session
revoke_resource_sessions project_id device_id now db = (
  record db {
    access_sessions =
        update (of_resource db project_id device_id) (close_session revoked now) db.access_sessions;
  },
  map (λ s. s.id) (select (of_resource db project_id device_id) db.access_sessions),
)
