-- ===== src/Store/Users.antt =====
-- backend/internal/store/users.go: accounts, and the login sessions. Ids that id.New draws and
-- readings of the clock are arguments. A returned User is its row; the list ProjectIDs of the
-- account is not part of it.
mod Sessions
unfoldable pub use Sessions.*
pub mod AdminCount
pub mod Changes
pub mod LastAdmin
pub mod Live
pub mod Revocation
use device_management_platfo.Base.{
  ℕ, String, Bool, true, false, ◌&&◌, ◌||◌, not, Option, none, some, List, [], ◌∷◌, ◌==◌, eqb, ltb,
  if◌then◌else◌, find, count, exists, update, delete, Result, ok, err, or_fail, require, ◌>>=◌,
  ◌>>◌,
}
use device_management_platfo.Store.Schema.{
  Db, User, Membership, AccessSession, AuthSession, Role, system_admin, is_system_admin, Status,
  revoked, is_active, Error, not_found, last_admin, already_initialized, constraint, transaction,
  AuditInput, insert_audit,
}

pub record CreateUserInput : Type 0 where
  pub username : String
  pub display_name : String
  pub password_hash : String
  pub role : Role
  pub enabled : Bool
  pub project_ids : List String

pub record UpdateUserInput : Type 0 where
  pub display_name : String
  pub password_hash : String
  pub role : Role
  pub enabled : Bool
  pub project_ids : List String

unfoldable pub has_users : Db → Bool
has_users db = ltb 0 (count (λ _. true) db.users)

unfoldable pub new_user : String → CreateUserInput → Role → Bool → ℕ → User
new_user user_id input role enabled now = record {
  id = user_id;
  username = input.username;
  display_name = input.display_name;
  email = "";
  password_hash = input.password_hash;
  role = role;
  enabled = enabled;
  password_change_required = true;
  created_at = now;
  updated_at = now;
}

-- INSERT INTO users, with PRIMARY KEY(id) and UNIQUE(username).
unfoldable pub insert_user : User → Db → Result Error Db
insert_user row db = do
  require constraint (not (exists (λ u. u.id == row.id) db.users))
  require constraint (not (exists (λ u. u.username == row.username) db.users))
  ok (record db { users = row ∷ db.users })

-- The loop of INSERTs into project_memberships.
unfoldable pub insert_memberships : String → List String → Db → Result Error Db
insert_memberships user_id [] db = ok db
insert_memberships user_id (project_id ∷ rest) db =
    let row : Membership = record { user_id = user_id; project_id = project_id } in
    let more = insert_memberships user_id rest (record db { memberships = row ∷ db.memberships }) in
    if exists (λ p. p.id == project_id) db.projects
      && not (exists (λ m. m.user_id == user_id && m.project_id == project_id) db.memberships)
    then more
    else err constraint

unfoldable pub create_initial_admin :
    String → String → ℕ → CreateUserInput → AuditInput → Db → Db × Result Error User
unfolding new_user insert_user insert_audit
create_initial_admin user_id audit_id now input audit db = transaction db (do
  let row = new_user user_id input system_admin true now
  require already_initialized (eqb (count (λ _. true) db.users) 0)
  db₁ ← insert_user row db
  db₂ ← insert_audit audit_id (record audit { resource_id = user_id }) now db₁
  ok (db₂, row))

unfoldable pub create_user :
    String → String → ℕ → CreateUserInput → AuditInput → Db → Db × Result Error User
unfolding new_user insert_user insert_memberships insert_audit
create_user user_id audit_id now input audit db = transaction db (do
  let row = new_user user_id input input.role input.enabled now
  db₁ ← insert_user row db
  db₂ ← insert_memberships user_id input.project_ids db₁
  db₃ ← insert_audit audit_id (record audit { resource_id = user_id }) now db₂
  ok (db₃, row))

abbrev pub is_enabled_admin : User → Bool
is_enabled_admin u = is_system_admin u.role && u.enabled

-- The enabled system administrators other than the user.
unfoldable pub other_admins : String → Db → ℕ
other_admins user_id db = count (λ u. is_enabled_admin u && not (u.id == user_id)) db.users

unfoldable pub assign_user : UpdateUserInput → ℕ → User → User
assign_user input now u =
    if input.password_hash == ""
    then record u {
      display_name = input.display_name;
      role = input.role;
      enabled = input.enabled;
      updated_at = now;
    }
    else record u {
      display_name = input.display_name;
      password_hash = input.password_hash;
      password_change_required = true;
      role = input.role;
      enabled = input.enabled;
      updated_at = now;
    }

-- The UPDATE of the row, the DELETE of its memberships.
unfoldable pub write_user : String → UpdateUserInput → ℕ → Db → Db
unfolding assign_user
write_user user_id input now db = record db {
  users = update (λ u. u.id == user_id) (assign_user input now) db.users;
  memberships = delete (λ m. m.user_id == user_id) db.memberships;
}

-- A change that would take the last enabled system administrator away.
unfoldable pub takes_last_admin : String → User → Role → Bool → Db → Bool
takes_last_admin user_id previous role enabled db =
    is_enabled_admin previous
    && (not (is_system_admin role) || not enabled)
    && eqb (other_admins user_id db) 0

unfoldable pub update_user :
    String → String → ℕ → UpdateUserInput → AuditInput → Db → Db × Result Error User
unfolding takes_last_admin write_user insert_memberships revoke_user_sessions insert_audit
update_user user_id audit_id now input audit db = transaction db (do
  previous ← or_fail not_found (find (λ u. u.id == user_id) db.users)
  require last_admin (not (takes_last_admin user_id previous input.role input.enabled db))
  db₁ ← insert_memberships user_id input.project_ids (write_user user_id input now db)
  let db₂ = revoke_user_sessions user_id db₁
  db₃ ← insert_audit audit_id (record audit { resource_id = user_id }) now db₂
  updated ← or_fail not_found (find (λ u. u.id == user_id) db₃.users)
  ok (db₃, updated))

-- DELETE FROM users, with the cascades of the foreign keys: the sessions that hang on a login session
-- of the user go with it, and other access sessions lose their user.
unfoldable pub delete_user_row : String → Db → Db
delete_user_row user_id db = record db {
  users = delete (λ u. u.id == user_id) db.users;
  memberships = delete (λ m. m.user_id == user_id) db.memberships;
  auth_sessions = delete (λ a. a.user_id == user_id) db.auth_sessions;
  access_sessions =
      update (λ s. elim s.user_id [ none ↦ false | some id ↦ id == user_id ])
        (λ s. record s { user_id = none })
        (delete
          (λ s. exists (λ a. a.id == s.auth_session_id && a.user_id == user_id) db.auth_sessions)
          db.access_sessions);
  challenges = delete (λ c. c.user_id == user_id) db.challenges;
  user_mfa = delete (λ m. m.user_id == user_id) db.user_mfa;
  recovery_codes = delete (λ r. r.user_id == user_id) db.recovery_codes;
}

unfoldable pub delete_user : String → String → ℕ → AuditInput → Db → Db × Result Error (Unit {0})
unfolding delete_user_row insert_audit
delete_user user_id audit_id now audit db = transaction db (do
  previous ← or_fail not_found (find (λ u. u.id == user_id) db.users)
  require last_admin (not (is_enabled_admin previous && eqb (other_admins user_id db) 0))
  db₁ ←
      insert_audit audit_id (record audit { resource_id = user_id }) now
        (delete_user_row user_id db)
  ok (db₁, tt))

pub record ChangePasswordInput : Type 0 where
  pub user_id : String
  pub password_hash : String
  pub token_hash : String
  pub csrf_hash : String
  pub expires_at : ℕ
  pub audit : AuditInput

unfoldable pub set_password : String → ℕ → User → User
set_password password_hash now u = record u {
  password_hash = password_hash;
  password_change_required = false;
  updated_at = now;
}

unfoldable pub change_password :
    String → String → ℕ → ChangePasswordInput → Db → Db × Result Error AuthSession
unfolding set_password revoke_user_sessions revoke_user_challenges insert_auth_session insert_audit
change_password session_id audit_id now input db = transaction db (do
  user ← or_fail not_found (find (λ u. u.id == input.user_id) db.users)
  require not_found (user.enabled && not (input.password_hash == ""))
  let db₁ = record db {
    users = update (λ u. u.id == input.user_id) (set_password input.password_hash now) db.users;
  }
  let db₂ = revoke_user_challenges input.user_id (revoke_user_sessions input.user_id db₁)
  let row =
      new_auth_session session_id input.user_id input.token_hash input.csrf_hash input.expires_at
        now
  db₃ ← insert_auth_session row db₂
  db₄ ← insert_audit audit_id (record input.audit { resource_id = input.user_id }) now db₃
  ok (db₄, row))
