-- ===== src/Examples.antt =====
-- Concrete data for the theorems: a database with an administrator, an operator, and their sessions.
mod Accounts
mod Closings
mod Factors
mod Forwards
mod Logins
mod Requests
mod Sessions
mod Scans
mod Gateways
mod Devices
mod Entries
mod Nodes
mod Overrides
mod Panels
use device_management_platfo.Base.{ℕ, ltb, String, true, false, none, some, [], ◌∷◌, ◌*◌}
use device_management_platfo.Store.{
  Db, User, AuthSession, AccessSession, MfaChallenge, UserMfa, RecoveryCode, Project, Device,
  Endpoint, AuditInput, system_admin, operator, active, verify, second, TextOrder,
}

abbrev pub after : TextOrder
after a b = ltb b a

abbrev pub root : User
root = record {
  id = "u1";
  username = "root";
  display_name = "Root";
  email = "root@example.org";
  password_hash = "h1";
  role = system_admin;
  enabled = true;
  password_change_required = false;
  created_at = 0;
  updated_at = 0;
}

abbrev pub eve : User
eve = record root { id = "u2"; username = "eve"; role = operator }

abbrev pub login : AuthSession
login = record {
  id = "a1";
  user_id = "u2";
  token_hash = "t1";
  csrf_hash = "c1";
  status = active;
  expires_at = 1000 * second;
  created_at = 0;
  last_seen_at = 10 * second;
}

abbrev pub visit : AccessSession
visit = record {
  id = "s1";
  user_id = some "u2";
  auth_session_id = "a1";
  project_id = "p1";
  endpoint_id = "e1";
  token_hash = "k1";
  route_label = "";
  grant_hash = "g1";
  grant_exchanged_at = none;
  mode = "web";
  source_ip = "10.0.0.1";
  status = active;
  expires_at = 900 * second;
  started_at = 10 * second;
  ended_at = none;
  last_seen_at = 10 * second;
}

abbrev pub project : Project
project = record { id = "p1"; name = "Lab"; node_id = "n1"; client_id = some 7 }

abbrev pub device : Device
device = record {
  id = "d1";
  project_id = "p1";
  host = "192.168.1.5";
  name = "Camera";
  device_type = "camera";
  vendor = "";
  source = "manual";
  status = "unknown";
  last_seen_at = none;
  created_at = 0;
  updated_at = 0;
}

abbrev pub endpoint : Endpoint
endpoint = record {
  id = "e1";
  device_id = "d1";
  name = "Panel";
  protocol = "http";
  target_port = 80;
  access_type = "web";
  tls_server_name = "";
  ssh_credential_ref = "";
  ssh_auth_method = "";
  ssh_username = "";
  ssh_key_path = "";
  ssh_host_key_fingerprint = "";
  verification_status = "unverified";
  last_verified_at = none;
  created_at = 0;
  updated_at = 0;
}

abbrev pub challenge : MfaChallenge
challenge = record {
  id = "m1";
  user_id = "u2";
  token_hash = "q1";
  purpose = verify;
  method = "totp";
  secret_ciphertext = "";
  email = "";
  email_code_hash = "";
  email_sent_at = none;
  email_verified = false;
  new_password_hash = "";
  source_ip = "10.0.0.1";
  status = active;
  attempts = 0;
  expires_at = 600 * second;
  created_at = 0;
}

abbrev pub factor : UserMfa
factor = record {
  user_id = "u2";
  secret_ciphertext = "x";
  preferred_method = "totp";
  last_totp_counter = 3;
  enabled_at = 0;
  updated_at = 0;
}

abbrev pub code : RecoveryCode
code = record { id = "r1"; user_id = "u2"; code_hash = "rc1"; used_at = none; created_at = 0 }

abbrev pub sample : Db
sample = record {
  users = root ∷ eve ∷ [];
  memberships = [];
  auth_sessions = login ∷ [];
  access_sessions = visit ∷ record visit { id = "s2"; token_hash = "k2" } ∷ [];
  challenges = challenge ∷ record challenge { id = "m2"; token_hash = "q2" } ∷ [];
  user_mfa = factor ∷ [];
  recovery_codes = code ∷ record code { id = "r2"; code_hash = "rc2" } ∷ [];
  nodes = [];
  projects = project ∷ [];
  devices = device ∷ [];
  endpoints = endpoint ∷ [];
  port_forwards = [];
  discovery_jobs = [];
  discovery_results = [];
  audit_logs = [];
}

abbrev pub note : AuditInput
note = record {
  actor = "root";
  action = "test";
  resource_type = "user";
  resource_id = "";
  result = "success";
  request_id = "";
  source_ip = "";
}
