-- ===== src/Store/Access/Live.antt =====
-- access_sessions.go: what the statements that resolve a session by its tokens ask of its row, and of
-- the rows that it refers to, in words that do not use them.
use device_management_platfo.Base.{
  ℕ, ◌≡◌, refl, String, true, ◌&&◌, Option, none, some, ◌==◌, eq_iff, arith, is_some, IsIn,
  exists-IsIn, ok,
}
use device_management_platfo.Store.Schema.{
  Db, User, AccessSession, AuthSession, Status, active, is_active, TextOrder,
}
use device_management_platfo.Store.Access.{
  EndpointRoute, endpoint_route, joins, is_user, enabled_user,
}
use device_management_platfo.Store.Access.Grants.{resolvable, live, auth_live}

pub is_active_iff : (status : Status) → is_active status ≡ true → status ≡ active
is_active_iff status h = ground arith

module _ (later : TextOrder) where
  -- A login session that stands: active, not expired, seen after the cutoff, of an enabled user.
  abbrev pub IsLoginOf : Db → ℕ → ℕ → AccessSession → AuthSession → Type 0
  IsLoginOf db now cutoff s a =
      IsIn a db.auth_sessions
      × (a.id ≡ s.auth_session_id)
      × (s.user_id ≡ some a.user_id)
      × (a.status ≡ active)
      × (later a.expires_at now ≡ true)
      × (later a.last_seen_at cutoff ≡ true)
      × ((u : User) × IsIn u db.users × (u.id ≡ a.user_id) × (u.enabled ≡ true))

  -- An exchanged session of the two tokens that stands, with a login session that stands.
  abbrev pub IsStanding : Db → String → String → ℕ → ℕ → AccessSession → Type 0
  IsStanding db token_hash grant_hash now cutoff s =
      (s.token_hash ≡ token_hash)
      × (s.grant_hash ≡ grant_hash)
      × ((at : ℕ) × (s.grant_exchanged_at ≡ some at))
      × (s.status ≡ active)
      × (later s.expires_at now ≡ true)
      × (later s.last_seen_at cutoff ≡ true)
      × ((a : AuthSession) × IsLoginOf db now cutoff s a)

  exchanged_at : (o : Option ℕ) → is_some o ≡ true → (at : ℕ) × (o ≡ some at)
  exchanged_at (some at) h = (at, refl)
  exchanged_at none h = absurd (cc h)

  is_user-some : (o : Option String) (id : String) → is_user o id ≡ true → o ≡ some id
  is_user-some (some x) id h = rw ((eq_iff x id).0 h) refl
  is_user-some none id h = absurd (cc h)

  auth_live-IsLoginOf :
      (db : Db) (now cutoff : ℕ) (s : AccessSession)
      → auth_live later db now cutoff s ≡ true
      → (a : AuthSession) × IsLoginOf db now cutoff s a
  unfolding auth_live enabled_user
  auth_live-IsLoginOf db now cutoff s h =
      let (a, there, all) = exists-IsIn _ db.auth_sessions h in
      let (u, known, both) =
        exists-IsIn (λ u. u.id == a.user_id && u.enabled) db.users (ground (arith, all)) in
      (
        a,
        (
          there,
          (eq_iff a.id s.auth_session_id).0 (ground (arith, all)),
          is_user-some s.user_id a.user_id (ground (arith, all)),
          is_active_iff a.status (ground (arith, all)),
          ground (arith, all),
          ground (arith, all),
          (u, known, (eq_iff u.id a.user_id).0 (ground (arith, both)), ground (arith, both)),
        ),
      )

  pub resolvable-IsStanding :
      (db : Db) (token_hash grant_hash : String) (now cutoff : ℕ) (s : AccessSession)
      → resolvable later db token_hash grant_hash now cutoff s ≡ true
      → IsStanding db token_hash grant_hash now cutoff s
  unfolding resolvable live
  resolvable-IsStanding db token_hash grant_hash now cutoff s h = (
    (eq_iff s.token_hash token_hash).0 (ground (arith, h)),
    (eq_iff s.grant_hash grant_hash).0 (ground (arith, h)),
    exchanged_at s.grant_exchanged_at (ground (arith, h)),
    is_active_iff s.status (ground (arith, h)),
    ground (arith, h),
    ground (arith, h),
    auth_live-IsLoginOf db now cutoff s (ground (arith, h)),
  )

  pub resolvable-project :
      (db : Db) (token_hash grant_hash : String) (now cutoff : ℕ) (s : AccessSession)
      (route : EndpointRoute)
      → resolvable later db token_hash grant_hash now cutoff s ≡ true
      → endpoint_route db s.endpoint_id ≡ ok route
      → route.project_id ≡ s.project_id
  unfolding resolvable joins
  resolvable-project db token_hash grant_hash now cutoff s route h routed =
      (eq_iff route.project_id s.project_id).0 (ground (arith, h, routed))
