-- ===== src/Store/Schema.antt =====
-- The tables, the errors and the transactions of the store.
use device_management_platfo.Base.{
  ℕ, ◌+◌, ◌≤◌, ◌≡◌, String, Bool, true, false, Option, List, ◌∷◌, ◌==◌, if◌then◌else◌, exists,
  Result, ok, err,
}

pub data Role : Type 0 where
  system_admin project_admin operator temporary : Role

abbrev pub is_system_admin : Role → Bool
is_system_admin system_admin = true
is_system_admin _ = false

-- The status of a session or of a challenge.
pub data Status : Type 0 where
  active revoked expired consumed : Status

abbrev pub is_active : Status → Bool
is_active active = true
is_active _ = false

pub record User : Type 0 where
  pub id : String
  pub username : String
  pub display_name : String
  pub email : String
  pub password_hash : String
  pub role : Role
  pub enabled : Bool
  pub password_change_required : Bool
  pub created_at : ℕ
  pub updated_at : ℕ

pub record Membership : Type 0 where
  pub user_id : String
  pub project_id : String

pub record AuthSession : Type 0 where
  pub id : String
  pub user_id : String
  pub token_hash : String
  pub csrf_hash : String
  pub status : Status
  pub expires_at : ℕ
  pub created_at : ℕ
  pub last_seen_at : ℕ

pub record AccessSession : Type 0 where
  pub id : String
  pub user_id : Option String
  pub auth_session_id : String
  pub project_id : String
  pub endpoint_id : String
  pub token_hash : String
  pub route_label : String
  pub grant_hash : String
  pub grant_exchanged_at : Option ℕ
  pub mode : String
  pub source_ip : String
  pub status : Status
  pub expires_at : ℕ
  pub started_at : ℕ
  pub ended_at : Option ℕ
  pub last_seen_at : ℕ

pub data Purpose : Type 0 where
  onboard verify password : Purpose

abbrev pub is_onboard : Purpose → Bool
is_onboard onboard = true
is_onboard _ = false

abbrev pub is_password : Purpose → Bool
is_password password = true
is_password _ = false

pub record MfaChallenge : Type 0 where
  pub id : String
  pub user_id : String
  pub token_hash : String
  pub purpose : Purpose
  pub method : String
  pub secret_ciphertext : String
  pub email : String
  pub email_code_hash : String
  pub email_sent_at : Option ℕ
  pub email_verified : Bool
  pub new_password_hash : String
  pub source_ip : String
  pub status : Status
  pub attempts : ℕ
  pub expires_at : ℕ
  pub created_at : ℕ

pub record UserMfa : Type 0 where
  pub user_id : String
  pub secret_ciphertext : String
  pub preferred_method : String
  pub last_totp_counter : ℕ
  pub enabled_at : ℕ
  pub updated_at : ℕ

pub record RecoveryCode : Type 0 where
  pub id : String
  pub user_id : String
  pub code_hash : String
  pub used_at : Option ℕ
  pub created_at : ℕ

pub record Node : Type 0 where
  pub id : String
  pub port_start : ℕ
  pub port_end : ℕ
  pub enabled : Bool

pub record Project : Type 0 where
  pub id : String
  pub name : String
  pub node_id : String
  pub client_id : Option ℕ

pub record Device : Type 0 where
  pub id : String
  pub project_id : String
  pub host : String
  pub name : String
  pub device_type : String
  pub vendor : String
  pub source : String
  pub status : String
  pub last_seen_at : Option ℕ
  pub created_at : ℕ
  pub updated_at : ℕ

pub record Endpoint : Type 0 where
  pub id : String
  pub device_id : String
  pub name : String
  pub protocol : String
  pub target_port : ℕ
  pub access_type : String
  pub tls_server_name : String
  pub ssh_credential_ref : String
  pub ssh_auth_method : String
  pub ssh_username : String
  pub ssh_key_path : String
  pub ssh_host_key_fingerprint : String
  pub verification_status : String
  pub last_verified_at : Option ℕ
  pub created_at : ℕ
  pub updated_at : ℕ

pub record DiscoveryPort : Type 0 where
  pub name : String
  pub protocol : String
  pub port : ℕ

pub record DiscoveryJob : Type 0 where
  pub id : String
  pub project_id : String
  pub networks : List String
  pub ports : List DiscoveryPort
  pub status : String
  pub progress : ℕ
  pub created_at : ℕ
  pub started_at : Option ℕ
  pub finished_at : Option ℕ

pub record DiscoveryResult : Type 0 where
  pub id : String
  pub job_id : String
  pub host : String
  pub port : ℕ
  pub protocol : String
  pub service_name : String
  pub fingerprint : String
  pub response_summary : String
  pub confidence : ℕ
  pub import_status : String
  pub created_at : ℕ

pub record PortForward : Type 0 where
  pub id : String
  pub endpoint_id : String
  pub node_id : String
  pub server_port : ℕ
  pub node_task_type : String
  pub node_task_id : Option ℕ
  pub status : String
  pub expires_at : Option ℕ
  pub created_at : ℕ
  pub updated_at : ℕ

pub record AuditLog : Type 0 where
  pub id : String
  pub actor : String
  pub action : String
  pub resource_type : String
  pub resource_id : String
  pub result : String
  pub request_id : String
  pub source_ip : String
  pub created_at : ℕ

pub record Db : Type 0 where
  pub users : List User
  pub memberships : List Membership
  pub auth_sessions : List AuthSession
  pub access_sessions : List AccessSession
  pub challenges : List MfaChallenge
  pub user_mfa : List UserMfa
  pub recovery_codes : List RecoveryCode
  pub nodes : List Node
  pub projects : List Project
  pub devices : List Device
  pub endpoints : List Endpoint
  pub port_forwards : List PortForward
  pub discovery_jobs : List DiscoveryJob
  pub discovery_results : List DiscoveryResult
  pub audit_logs : List AuditLog

pub data Error : Type 0 where
  not_found in_use last_admin already_initialized mfa_challenge mfa_replay mfa_cooldown : Error
  -- A UNIQUE, PRIMARY KEY or FOREIGN KEY constraint that an INSERT breaks.
  constraint : Error
  -- The errors of store/port_forwards.go that have no name in the source.
  web_endpoint no_client outside_pool pool_exhausted invalid_task_ref : Error
  -- The errors of store/discovery.go and store/devices.go that have no name in the source.
  not_completed no_statuses uncovered_endpoint unknown_endpoint endpoint_in_use : Error
  resource_in_use : Error

-- A transaction that fails is rolled back.
abbrev pub transaction {ℓ} : {A : Type ℓ} → Db → Result Error (Db × A) → Db × Result Error A
transaction db (ok (db', a)) = (db', ok a)
transaction db (err e) = (db, err e)

pub record AuditInput : Type 0 where
  pub actor : String
  pub action : String
  pub resource_type : String
  pub resource_id : String
  pub result : String
  pub request_id : String
  pub source_ip : String

unfoldable pub audit_row : String → AuditInput → ℕ → AuditLog
audit_row audit_id input now = record {
  id = audit_id;
  actor = input.actor;
  action = input.action;
  resource_type = input.resource_type;
  resource_id = input.resource_id;
  result = input.result;
  request_id = input.request_id;
  source_ip = input.source_ip;
  created_at = now;
}

unfoldable pub insert_audit : String → AuditInput → ℕ → Db → Result Error Db
unfolding audit_row
insert_audit audit_id input now db =
    if exists (λ row. row.id == audit_id) db.audit_logs
    then err constraint
    else ok (record db { audit_logs = audit_row audit_id input now ∷ db.audit_logs })

-- `a > b` between two times as the database keeps them.
abbrev pub TextOrder : Type 0
TextOrder = ℕ → ℕ → Bool

abbrev pub second : ℕ
second = 1_000_000_000

-- RFC3339Nano drops the zeros at the end of a fraction, so the texts of two times within one second
-- may compare the other way round. Times a second apart differ in a part of fixed width.
pub record IsTextOrder (later : TextOrder) : Type 0 where
  pub separated : (a b : ℕ) → a + second ≤ b → later b a ≡ true
  pub not_later : (a b : ℕ) → a + second ≤ b → later a b ≡ false
  pub not_self : (a : ℕ) → later a a ≡ false
