-- ===== src/Store/Access/Grants.antt =====
-- access_sessions.go: the operations that compare times. A session is live while it is active, not
-- expired, seen after the idle cutoff, and its login session is all that too, of an enabled user.
use device_management_platfo.Base.{
  ℕ, ◌+◌, String, Bool, false, ◌&&◌, ◌||◌, not, none, some, List, ◌==◌, leb, eqb, if◌then◌else◌,
  is_none, is_some, find, select, count, exists, update, Result, ok, err, or_fail, require, ◌>>=◌,
  ◌>>◌,
}
use device_management_platfo.Store.Schema.{
  Db, AccessSession, AuthSession, expired, is_active, Error, not_found, transaction, TextOrder,
}
use device_management_platfo.Store.Access.{
  EndpointRoute, endpoint_route, joins, has_device, is_user, enabled_user,
  access_activity_touch_interval, close_session,
}

unfoldable pub see_session : ℕ → AccessSession → AccessSession
see_session now s = record s { last_seen_at = now }

unfoldable pub see_auth : ℕ → AuthSession → AuthSession
see_auth now a = record a { last_seen_at = now }

-- The two UPDATEs at the end of ResolveAccessGrant, half a minute after the last ones at most.
unfoldable pub touch_both : AccessSession → ℕ → Db → Db
unfolding see_session see_auth
touch_both s now db =
    if leb (s.last_seen_at + access_activity_touch_interval) now
    then record db {
      access_sessions = update (λ r. r.id == s.id) (see_session now) db.access_sessions;
      auth_sessions =
          update (λ a. a.id == s.auth_session_id && is_active a.status) (see_auth now)
            db.auth_sessions;
    }
    else db

unfoldable pub mark_exchanged : ℕ → AccessSession → AccessSession
mark_exchanged now s = record s { grant_exchanged_at = some now }

module _ (later : TextOrder) where
  -- The EXISTS over auth_sessions and users that the statements share.
  unfoldable pub auth_live : Db → ℕ → ℕ → AccessSession → Bool
  auth_live db now cutoff s =
      exists
        (λ a.
          a.id == s.auth_session_id
          && is_user s.user_id a.user_id
          && is_active a.status
          && later a.expires_at now
          && later a.last_seen_at cutoff
          && enabled_user db a.user_id)
        db.auth_sessions

  unfoldable pub live : Db → ℕ → ℕ → AccessSession → Bool
  live db now cutoff s =
      is_active s.status
      && later s.expires_at now
      && later s.last_seen_at cutoff
      && auth_live db now cutoff s

  unfoldable pub exchangeable : Db → String → String → ℕ → ℕ → AccessSession → Bool
  exchangeable db token_hash grant_hash now cutoff s =
      s.token_hash == token_hash
      && s.grant_hash == grant_hash
      && is_none s.grant_exchanged_at
      && live db now cutoff s

  unfoldable pub resolvable : Db → String → String → ℕ → ℕ → AccessSession → Bool
  resolvable db token_hash grant_hash now cutoff s =
      s.token_hash == token_hash
      && s.grant_hash == grant_hash
      && is_some s.grant_exchanged_at
      && live db now cutoff s
      && joins db s

  unfoldable pub resolve_access_grant :
      String → String → ℕ → ℕ → Db → Db × Result Error (AccessSession × EndpointRoute)
  unfolding touch_both see_session
  resolve_access_grant token_hash grant_hash now cutoff db = transaction db (do
    s ← or_fail not_found (find (resolvable db token_hash grant_hash now cutoff) db.access_sessions)
    route ← endpoint_route db s.endpoint_id
    ok (touch_both s now db, (see_session now s, route)))

  -- `now` is read before the UPDATE, `then` by ResolveAccessGrant.
  unfoldable pub exchange_access_grant :
      String → String → ℕ → ℕ → ℕ → Db → Db × Result Error (AccessSession × EndpointRoute)
  unfolding mark_exchanged
  exchange_access_grant token_hash grant_hash now then_ cutoff db =
      let hit = exchangeable db token_hash grant_hash now cutoff in
      let db' = record db {
        access_sessions = update hit (mark_exchanged now) db.access_sessions;
      } in
      let resolved = resolve_access_grant token_hash grant_hash then_ cutoff db' in
      if eqb (count hit db.access_sessions) 1 then resolved else (db', err not_found)

  unfoldable pub touchable : Db → String → ℕ → ℕ → AccessSession → Bool
  touchable db session_id now cutoff s = s.id == session_id && live db now cutoff s

  -- WHERE id = (SELECT auth_session_id FROM access_sessions WHERE id = ?)
  unfoldable pub touched_auth : Db → String → ℕ → AuthSession → Bool
  touched_auth db session_id now a =
      elim (find (λ s. s.id == session_id) db.access_sessions) [
        | none ↦ false
        | some s ↦ a.id == s.auth_session_id
      ]
      && is_active a.status
      && later a.expires_at now

  unfoldable pub touch_access_session : String → ℕ → ℕ → Db → Db × Result Error (Unit {0})
  unfolding see_session see_auth
  touch_access_session session_id now cutoff db =
      let hit = touchable db session_id now cutoff in
      let sessions = update hit (see_session now) db.access_sessions in
      let db' = record db { access_sessions = sessions } in
      transaction db (do
        require not_found (eqb (count hit db.access_sessions) 1)
        require not_found (eqb (count (touched_auth db' session_id now) db.auth_sessions) 1)
        ok (
          record db' {
            auth_sessions =
                update (touched_auth db' session_id now) (see_auth now) db.auth_sessions;
          },
          tt,
        ))

  -- The rows of ListActiveAccessSessions, without their order.
  unfoldable pub list_active_access_sessions : ℕ → ℕ → Db → List AccessSession
  list_active_access_sessions now cutoff db =
      select (λ s. live db now cutoff s && has_device db s) db.access_sessions

  unfoldable pub expirable : Db → ℕ → ℕ → AccessSession → Bool
  expirable db now cutoff s =
      is_active s.status
      && (not (later s.expires_at now)
          || not (later s.last_seen_at cutoff)
          || not (auth_live db now cutoff s))

  unfoldable pub expire_access_sessions : ℕ → ℕ → Db → Db × ℕ
  expire_access_sessions now cutoff db = (
    record db {
      access_sessions =
          update (expirable db now cutoff) (close_session expired now) db.access_sessions;
    },
    count (expirable db now cutoff) db.access_sessions,
  )
