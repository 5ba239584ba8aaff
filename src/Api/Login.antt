-- ===== src/Api/Login.antt =====
-- backend/internal/api/api.go: login, over the two limiters and the store. Verification of a
-- password, SHA-256, strings.ToLower and strings.TrimSpace are parameters. The secrets and ids that
-- are drawn are arguments, and one reading of the clock stands for those of one request. The cookies
-- and the bodies of the answers are not modelled.
pub mod Password
use Prim.Native.String.{◌++◌, len}
use device_management_platfo.Base.{
  ℕ, ◌+◌, ◌*◌, String, Bool, true, false, ◌&&◌, ◌||◌, not, Option, none, some, List, ◌==◌, ltb,
  if◌then◌else◌, find, exists, Result, ok, err, or_fail, ◌>>=◌,
}
use device_management_platfo.Auth.LoginLimiter.{LoginLimiter, blocked, failure, success}
use device_management_platfo.Store.{
  Db, User, UserMfa, AuthSession, Purpose, verify, password, onboard, Error, not_found, AuditInput,
  insert_audit, TextOrder, second,
}
use device_management_platfo.Store.Users.{create_auth_session}
use device_management_platfo.Store.Mfa.{create_mfa_challenge, set_mfa_challenge_method}

pub record LoginServer : Type 0 where
  pub mfa_enabled : Bool
  -- s.mfa != nil
  pub mfa_configured : Bool
  pub auth_session_ttl : ℕ

pub record LoginRequest : Type 0 where
  pub username : String
  pub password : String
  pub source_ip : String
  pub request_id : String

pub record LoginDraws : Type 0 where
  pub token : String
  pub csrf_token : String
  pub challenge_token : String
  pub session_id : String
  pub challenge_id : String
  pub audit_id : String
  pub now : ℕ

pub record LoginState : Type 0 where
  pub login_limiter : LoginLimiter
  pub login_ip_limiter : LoginLimiter
  pub db : Db

pub data LoginOutcome : Type 0 where
  invalid_credentials login_failed session_failed mfa_unavailable challenge_failed : LoginOutcome
  rate_limited : ℕ → LoginOutcome
  logged_in : AuthSession → LoginOutcome
  challenged : Purpose → LoginOutcome

-- Of the credential, the row of the user and that of the second factor.
unfoldable pub user_credential_by_username : String → Db → Result Error (User × Option UserMfa)
user_credential_by_username username db = do
  user ← or_fail not_found (find (λ u. u.username == username) db.users)
  ok (user, find (λ m. m.user_id == user.id) db.user_mfa)

-- AppendAudit, of which login drops the error.
unfoldable pub append_audit : String → AuditInput → ℕ → Db → Db
append_audit audit_id input now db = elim (insert_audit audit_id input now db) [
  | ok db' ↦ db'
  | err _ ↦ db
]

unfoldable pub audit_login : LoginDraws → LoginRequest → String → String → Db → Db
audit_login draws r username result db =
    append_audit draws.audit_id
      (record {
        actor = username;
        action = "auth.login";
        resource_type = "auth_session";
        resource_id = "";
        result = result;
        request_id = r.request_id;
        source_ip = r.source_ip;
      })
      draws.now db

abbrev pub prefers_totp : Option UserMfa → Bool
prefers_totp none = false
prefers_totp (some m) = m.preferred_method == "totp"

abbrev pub is_enrolled : Option UserMfa → Bool
is_enrolled none = false
is_enrolled (some m) = true

unfoldable pub purpose_of : LoginServer → User → Option UserMfa → Purpose
purpose_of s user factor =
    if not s.mfa_enabled
    then password
    else (if user.password_change_required || user.email == "" || not (is_enrolled factor)
        then onboard
        else verify)

abbrev pub is_password_purpose : Purpose → Bool
is_password_purpose password = true
is_password_purpose _ = false

module _ (verify_password : String → String → Bool) (digest to_lower trim : String → String)
    (later : TextOrder) where
  -- The limiters after a failed attempt.
  unfoldable pub fail_attempt : String → String → ℕ → LoginState → LoginState
  fail_attempt key source_ip now s = record s {
    login_limiter = failure s.login_limiter key now;
    login_ip_limiter = failure s.login_ip_limiter source_ip now;
  }

  unfoldable pub create_password_session :
      LoginServer → LoginDraws → LoginRequest → User → Db → Db × LoginOutcome
  create_password_session server draws r user db =
      let created =
        create_auth_session draws.session_id user.id (digest draws.token) (digest draws.csrf_token)
          (draws.now + server.auth_session_ttl) draws.now db in
      elim created.1 [
        | err _ ↦ (created.0, session_failed)
        | ok session ↦ (audit_login draws r user.username "success" created.0, logged_in session)
      ]

  -- The challenge of a second step.
  unfoldable pub create_challenge :
      LoginServer
      → LoginDraws
      → LoginRequest
      → User
      → Option UserMfa
      → Db
      → Db × Result LoginOutcome Purpose
  create_challenge server draws r user factor db =
      let purpose = purpose_of server user factor in
      let expires_at = draws.now + 600 * second in
      let created =
        create_mfa_challenge later draws.challenge_id user.id (digest draws.challenge_token) purpose
          "" r.source_ip expires_at draws.now draws.now db in
      let chosen =
        set_mfa_challenge_method later draws.challenge_id "totp" "" "" expires_at draws.now
          created.0 in
      elim created.1 [
        | err _ ↦ (created.0, err challenge_failed)
        | ok _ ↦
            if server.mfa_enabled && prefers_totp factor
            then (chosen.0, elim chosen.1 [ err _ ↦ err challenge_failed | ok _ ↦ ok purpose ])
            else (created.0, ok purpose)
      ]

  -- login from the credential on, which is of an enabled user, with a password that verifies.
  unfoldable pub authenticated :
      LoginServer
      → LoginDraws
      → LoginRequest
      → String
      → String
      → User
      → Option UserMfa
      → LoginState
      → LoginState × LoginOutcome
  authenticated server draws r username key user factor s =
      let cleared = success s.login_limiter key in
      let session = create_password_session server draws r user s.db in
      let challenge = create_challenge server draws r user factor s.db in
      if not server.mfa_enabled && not user.password_change_required
      then (record s { login_limiter = cleared; db = session.0 }, session.1)
      else (if server.mfa_enabled && not server.mfa_configured
          then (s, mfa_unavailable)
          else elim challenge.1 [
            | err outcome ↦ (record s { db = challenge.0 }, outcome)
            | ok purpose ↦ (
              record s {
                login_limiter = cleared;
                db =
                    audit_login draws r username
                      (if is_password_purpose purpose
                        then "password_change_required"
                        else "mfa_required")
                      challenge.0;
              },
              challenged purpose,
            )
          ])

  unfoldable pub check_credential :
      LoginServer
      → LoginDraws
      → LoginRequest
      → String
      → String
      → LoginState
      → LoginState × LoginOutcome
  check_credential server draws r username key s =
      let failed = fail_attempt key r.source_ip draws.now s in
      let refused : LoginState × LoginOutcome =
        (record failed { db = audit_login draws r username "failed" failed.db }, login_failed) in
      elim (user_credential_by_username username s.db) [
        | err _ ↦ refused
        | ok found ↦
            if not found.0.enabled || not (verify_password found.0.password_hash r.password)
            then refused
            else authenticated server draws r username key found.0 found.1 s
      ]

  unfoldable pub login :
      LoginServer → LoginDraws → LoginRequest → LoginState → LoginState × LoginOutcome
  login server draws r s =
      let username = trim r.username in
      let key = r.source_ip ++ ("\0" ++ to_lower username) in
      let ip = blocked s.login_ip_limiter r.source_ip draws.now in
      let seen_ip = record s { login_ip_limiter = ip.0 } in
      let user = blocked s.login_limiter key draws.now in
      let seen = record seen_ip { login_limiter = user.0 } in
      if ltb 256 (len username) || ltb 4096 (len r.password)
      then (s, invalid_credentials)
      else (if ip.1.0
          then (seen_ip, rate_limited ip.1.1)
          else (if user.1.0
              then (
                record seen { login_ip_limiter = failure ip.0 r.source_ip draws.now },
                rate_limited user.1.1,
              )
              else check_credential server draws r username key seen))
