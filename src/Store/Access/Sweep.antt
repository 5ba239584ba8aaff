-- ===== src/Store/Access/Sweep.antt =====
-- The lifecycle sweep and the guards of the other statements agree on which sessions are live.
use device_management_platfo.Base.{
  ℕ, ◌≡◌, refl, Bool, true, false, ◌&&◌, ◌||◌, not, List, arith, All, All-update_of,
}
use device_management_platfo.Store.{Db, AccessSession, expired, is_active, TextOrder}
use device_management_platfo.Store.Access.{close_session, enabled_user}
use device_management_platfo.Store.Access.Grants.{
  live, auth_live, expirable, expire_access_sessions,
}

module _ (later : TextOrder) where
  -- Being live is a matter of the row and of the login tables.
  live_same :
      (rows : List AccessSession) (now cutoff : ℕ) (db : Db) (s : AccessSession)
      → live later (record db { access_sessions = rows }) now cutoff s ≡ live later db now cutoff s
  unfolding live auth_live enabled_user
  live_same rows now cutoff db s = refl

  -- An active row is swept exactly if it is not live.
  expirable_iff :
      (now cutoff : ℕ) (db : Db) (s : AccessSession)
      → is_active s.status ≡ true
      → expirable later db now cutoff s ≡ not (live later db now cutoff s)
  unfolding live expirable
  expirable_iff now cutoff db s act =
      cases (later s.expires_at now) (later s.last_seen_at cutoff) (auth_live later db now cutoff s)
    where
      cases :
          (x y z : Bool)
          → (is_active s.status && (not x || not y || not z))
            ≡ not (is_active s.status && x && y && z)
      cases x y z = rw act (ground arith)

  -- A row that the sweep closed is not active.
  expired_inactive :
      (now : ℕ) (s : AccessSession) → is_active (close_session expired now s).status ≡ false
  unfolding close_session
  expired_inactive now s = refl

  -- After the sweep every row that is still active is live by the test that touching, exchanging and
  -- resolving use, at the same times and in the database that the sweep leaves.
  pub expire_leaves_live :
      (now cutoff : ℕ) (db : Db)
      → let db' = (expire_access_sessions later now cutoff db).0 in
        All
          (λ s. is_active s.status ≡ true → live later db' now cutoff s ≡ true)
          db'.access_sessions
  unfolding expire_access_sessions
  expire_leaves_live now cutoff db =
      All-update_of _ (expirable later db now cutoff) (close_session expired now)
        (λ s hit act. absurd (ground (arith, expired_inactive now s)))
        (λ s miss act.
          rw (live_same _ now cutoff db s) (ground (arith, expirable_iff now cutoff db s act)))
        db.access_sessions
