-- ===== src/Store/Users/Sessions.antt =====
-- users.go: the login sessions of the users.
use device_management_platfo.Base.{
  ℕ, ◌*◌, ◌-◌, String, Bool, true, false, ◌&&◌, ◌||◌, not, ◌∷◌, ◌==◌, eqb, if◌then◌else◌, find,
  count, exists, update, delete, Result, ok, err, or_fail, require, ◌>>=◌, ◌>>◌,
}
use device_management_platfo.Store.Schema.{
  Db, User, AuthSession, active, revoked, is_active, Error, not_found, constraint, transaction,
  TextOrder, second,
}

-- UPDATE auth_sessions SET status='revoked' WHERE user_id=? AND status='active'
unfoldable pub revoke_user_sessions : String → Db → Db
revoke_user_sessions user_id db = record db {
  auth_sessions =
      update (λ a. a.user_id == user_id && is_active a.status) (λ a. record a { status = revoked })
        db.auth_sessions;
}

-- UPDATE mfa_challenges SET status='revoked' WHERE user_id=? AND status='active'
unfoldable pub revoke_user_challenges : String → Db → Db
revoke_user_challenges user_id db = record db {
  challenges =
      update (λ c. c.user_id == user_id && is_active c.status) (λ c. record c { status = revoked })
        db.challenges;
}

abbrev pub new_auth_session : String → String → String → String → ℕ → ℕ → AuthSession
new_auth_session session_id user_id token_hash csrf_hash expires_at now = record {
  id = session_id;
  user_id = user_id;
  token_hash = token_hash;
  csrf_hash = csrf_hash;
  status = active;
  expires_at = expires_at;
  created_at = now;
  last_seen_at = now;
}

-- INSERT INTO auth_sessions, with its keys.
unfoldable pub insert_auth_session : AuthSession → Db → Result Error Db
insert_auth_session row db = do
  require constraint (not (exists (λ a. a.id == row.id) db.auth_sessions))
  require constraint (not (exists (λ a. a.token_hash == row.token_hash) db.auth_sessions))
  require constraint (exists (λ u. u.id == row.user_id) db.users)
  ok (record db { auth_sessions = row ∷ db.auth_sessions })

unfoldable pub create_auth_session :
    String → String → String → String → ℕ → ℕ → Db → Db × Result Error AuthSession
unfolding insert_auth_session
create_auth_session session_id user_id token_hash csrf_hash expires_at now db = transaction db (do
  let row = new_auth_session session_id user_id token_hash csrf_hash expires_at now
  db₁ ← insert_auth_session row db
  user ← or_fail not_found (find (λ u. u.id == user_id) db₁.users)
  ok (db₁, row))

unfoldable pub touch_auth_session : String → ℕ → Db → Db
touch_auth_session session_id now db = record db {
  auth_sessions =
      update (λ a. a.id == session_id && is_active a.status) (λ a. record a { last_seen_at = now })
        db.auth_sessions;
}

unfoldable pub revoke_auth_session : String → Db → Db × Result Error (Unit {0})
revoke_auth_session token_hash db =
    let hit : AuthSession → Bool = λ a. a.token_hash == token_hash && is_active a.status in
    (
      record db {
        auth_sessions = update hit (λ a. record a { status = revoked }) db.auth_sessions;
      },
      if eqb (count hit db.auth_sessions) 0 then err not_found else ok tt,
    )

module _ (later : TextOrder) where
  unfoldable pub resolvable_auth : String → ℕ → Db → AuthSession → Bool
  resolvable_auth token_hash now db a =
      a.token_hash == token_hash
      && is_active a.status
      && later a.expires_at now
      && exists (λ u. u.id == a.user_id) db.users

  unfoldable pub resolve_auth_session : String → ℕ → Db → Result Error (AuthSession × User)
  resolve_auth_session token_hash now db = do
    session ← or_fail not_found (find (resolvable_auth token_hash now db) db.auth_sessions)
    user ← or_fail not_found (find (λ u. u.id == session.user_id) db.users)
    require not_found user.enabled
    ok (session, user)

  -- expires_at <= now, or revoked and not seen for a day.
  stale_auth : ℕ → AuthSession → Bool
  stale_auth now a =
      not (later a.expires_at now)
      || elim a.status [ revoked ↦ true | _ ↦ false ]
        && not (later a.last_seen_at (now - 24 * 3600 * second))

  -- The DELETEs, and the access sessions that the foreign key takes along.
  unfoldable pub cleanup_auth_sessions : ℕ → Db → Db × ℕ
  unfolding stale_auth
  cleanup_auth_sessions now db = (
    record db {
      challenges =
          delete (λ c. not (later c.expires_at now) || not (is_active c.status)) db.challenges;
      auth_sessions = delete (stale_auth now) db.auth_sessions;
      access_sessions =
          delete (λ s. exists (λ a. a.id == s.auth_session_id && stale_auth now a) db.auth_sessions)
            db.access_sessions;
    },
    count (stale_auth now) db.auth_sessions,
  )
