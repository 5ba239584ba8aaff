-- ===== src/Store/Users/Revocation.antt =====
-- Changes to an account end its login sessions.
use device_management_platfo.Base.{
  ℕ, ◌≡◌, ◌≢◌, inl, inr, refl, String, true, false, some, List, arith, ◌==◌, eq_iff, All,
  All-update_of, All-find, find, find-test, ok,
}
use device_management_platfo.Store.{Db, User, AuthSession, AuditInput, is_active, TextOrder}
use device_management_platfo.Store.Users.{
  UpdateUserInput, update_user, write_user, revoke_user_sessions, resolve_auth_session,
  resolvable_auth,
}
use device_management_platfo.Store.Users.Changes.{insert_memberships_cases}

-- No login session of the user is active.
abbrev pub IsLoggedOut : String → List AuthSession → Type 0
IsLoggedOut user_id = All (λ a. a.user_id ≡ user_id → is_active a.status ≡ false)

revoked-IsLoggedOut :
    (user_id : String) (db : Db)
    → IsLoggedOut user_id (revoke_user_sessions user_id db).auth_sessions
unfolding revoke_user_sessions
revoked-IsLoggedOut user_id db =
    All-update_of _ _ _ (λ a hit e. refl) (λ a miss e. ground (arith, eq_iff a.user_id user_id))
      db.auth_sessions

-- A session that resolves is active, in time and of an enabled user, by the token that was asked for.
pub resolved :
    (later : TextOrder) (token_hash : String) (now : ℕ) (db : Db) (a : AuthSession) (u : User)
    → resolve_auth_session later token_hash now db ≡ ok (a, u)
    → (find (resolvable_auth later token_hash now db) db.auth_sessions ≡ some a)
      × (is_active a.status ≡ true)
      × (later a.expires_at now ≡ true)
      × (u.enabled ≡ true)
      × (a.token_hash ≡ token_hash)
      × (u.id ≡ a.user_id)
unfolding resolve_auth_session
resolved later token_hash now db a u e =
    let found : find (resolvable_auth later token_hash now db) db.auth_sessions ≡ some a =
      ground arith in
    let test = find-test (resolvable_auth later token_hash now db) db.auth_sessions a found in
    let owner : find (λ x. x.id == a.user_id) db.users ≡ some u = ground arith in
    let same = find-test (λ x. x.id == a.user_id) db.users u owner in
    (
      found,
      parts.0 test,
      parts.1 test,
      ground arith,
      (eq_iff _ _).0 (parts.2 test),
      (eq_iff _ _).0 same,
    )
  where
    parts :
        (resolvable_auth later token_hash now db a ≡ true → is_active a.status ≡ true)
        × (resolvable_auth later token_hash now db a ≡ true → later a.expires_at now ≡ true)
        × (resolvable_auth later token_hash now db a ≡ true → (a.token_hash == token_hash) ≡ true)
    parts = unfold resolvable_auth in (ground arith, ground arith, ground arith)

logged_out_unresolved :
    (later : TextOrder) (user_id token_hash : String) (now : ℕ) (db : Db) (a : AuthSession)
    (u : User)
    → IsLoggedOut user_id db.auth_sessions
    → resolve_auth_session later token_hash now db ≡ ok (a, u)
    → a.user_id ≢ user_id
logged_out_unresolved later user_id token_hash now db a u out e mine =
    let (found, act, _, _, _, _) = resolved later token_hash now db a u e in
    let closed = All-find _ _ db.auth_sessions a out found mine in cc

update_user_sessions :
    (user_id audit_id : String) (now : ℕ) (input : UpdateUserInput) (audit : AuditInput) (db : Db)
    (u : User)
    → (update_user user_id audit_id now input audit db).1 ≡ ok u
    → (update_user user_id audit_id now input audit db).0.auth_sessions
      ≡ (revoke_user_sessions user_id db).auth_sessions
unfolding update_user revoke_user_sessions write_user
update_user_sessions user_id audit_id now input audit db u e =
    elim (insert_memberships_cases user_id input.project_ids (write_user user_id input now db)) [
      | inl broken ↦ ground (arith, broken)
      | inr (ms, fits) ↦ ground (arith, fits)
    ]

-- After a successful change of an account, no token resolves to a login session of that user: at no
-- time, and whatever the order of times is.
pub update_user_logs_out :
    (user_id audit_id : String) (now : ℕ) (input : UpdateUserInput) (audit : AuditInput) (db : Db)
    (u : User) (later : TextOrder) (token_hash : String) (at : ℕ) (a : AuthSession) (owner : User)
    → (update_user user_id audit_id now input audit db).1 ≡ ok u
    → resolve_auth_session later token_hash at (update_user user_id audit_id now input audit db).0
      ≡ ok (a, owner)
    → a.user_id ≢ user_id
update_user_logs_out user_id audit_id now input audit db u later token_hash at a owner done e =
    logged_out_unresolved later user_id token_hash at
      (update_user user_id audit_id now input audit db).0 a owner
      (rw (update_user_sessions user_id audit_id now input audit db u done)
        (revoked-IsLoggedOut user_id db))
      e
