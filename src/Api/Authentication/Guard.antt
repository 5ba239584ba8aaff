-- ===== src/Api/Authentication/Guard.antt =====
-- What requireAuth guarantees.
use device_management_platfo.Base.{
  ℕ, ◌+◌, ◌≤◌, ◌≡◌, ◌⊎◌, inl, inr, refl, String, Bool, true, false, ◌&&◌, ◌||◌, not, Option, some,
  arith, ◌==◌, eq_iff, ltb, if◌then◌else◌, ok, Bool-cases, Option-cases, Result-cases,
}
use device_management_platfo.Store.{Db, User, AuthSession, TextOrder}
use device_management_platfo.Store.Users.{
  resolve_auth_session, revoke_auth_session, touch_auth_session,
}
use device_management_platfo.Store.Users.Live.{IsLogin, resolve-IsLogin}
use device_management_platfo.Store.Policies.{Policies}
use device_management_platfo.Api.Authorization.{Principal, authorize_request}
use device_management_platfo.Api.Authentication.{
  Server, HttpRequest, Outcome, idle_timeout, csrf_failed, forbidden, allowed, is_safe,
  has_api_token, provided_csrf, principal_of, lookups, admit, require_auth,
}

module _ (digest trim to_lower : String → String) (later : TextOrder) (policies : Policies)
    (job_project : String → Option String) where
  -- The conditions under which a request by the cookie of a session passes.
  pub Passes : Server → HttpRequest → ℕ → Db → Principal → AuthSession → User → Type 0
  Passes s r now db p session user =
      (p ≡ principal_of db session user)
      × (now ≤ session.last_seen_at + s.auth_session_idle_ttl)
      × ((is_safe r.route.method ≡ true)
          ⊎ (digest (provided_csrf digest trim to_lower r) ≡ session.csrf_hash))
      × (authorize_request (lookups db policies job_project now) r.route p ≡ true)

  -- The ladder of admit: which test decides, by the outcome.
  abbrev climb : Bool → Bool → Bool → Bool → Db → Db → Db → Principal → Db × Outcome
  climb late forged barred moved gone seen same current =
      if late
      then (gone, idle_timeout)
      else (if forged
          then (same, csrf_failed)
          else (if barred
              then (same, forbidden)
              else (if moved then seen else same, allowed current)))

  ladder :
      (late forged barred moved : Bool) (gone seen same : Db) (current p : Principal)
      → (climb late forged barred moved gone seen same current).1 ≡ allowed p
      → (late ≡ false) × (forged ≡ false) × (barred ≡ false) × (p ≡ current)
  ladder late forged barred moved gone seen same current p e =
      (ground arith, ground arith, ground arith, ground arith)

  admit_allowed :
      (s : Server) (r : HttpRequest) (now : ℕ) (token_hash : String) (session : AuthSession)
      (user : User) (db : Db) (p : Principal)
      → (admit digest trim to_lower later policies job_project s r now token_hash session user db).1
        ≡ allowed p
      → Passes s r now db p session user
  unfolding admit Passes
  admit_allowed s r now token_hash session user db p e =
      let (late, forged, barred, same) =
        ladder (ltb (session.last_seen_at + s.auth_session_idle_ttl) now)
          (not (is_safe r.route.method)
            && not (digest (provided_csrf digest trim to_lower r) == session.csrf_hash))
          (not (
            authorize_request (lookups db policies job_project now) r.route
              (principal_of db session user)))
          (not (is_safe r.route.method) || r.user_activity == "1")
          (revoke_auth_session token_hash db).0 (touch_auth_session session.id now db) db
          (principal_of db session user) p e in
      (
        same,
        ground (arith, late),
        forgery (is_safe r.route.method) _ _ forged,
        rw same (not_false _ barred),
      )
    where
      not_false : (b : Bool) → not b ≡ false → b ≡ true
      not_false b h = ground arith

      forgery :
          (safe : Bool) (x y : String)
          → (not safe && not (x == y)) ≡ false
          → (safe ≡ true) ⊎ (x ≡ y)
      forgery safe x y h = elim (Bool-cases safe) [
        | inl e₁ ↦ inl e₁
        | inr e₁ ↦ inr ((eq_iff x y).0 (ground (arith, h, e₁)))
      ]

  -- A request that is let through without the token of the configuration carries a cookie whose digest
  -- resolves to a row of the login sessions that is active and not expired, and to the row of its user,
  -- who is enabled; the session is not idle for too long; the method
  -- is a safe one or the CSRF token is that of the session; the principal is the user with the user's
  -- projects; and authorizeRequest allows it.
  pub require_auth_lem :
      (s : Server) (r : HttpRequest) (now : ℕ) (db : Db) (p : Principal)
      → has_api_token s r ≡ false
      → (require_auth digest trim to_lower later policies job_project s r now db).1 ≡ allowed p
      → (value : String) × (session : AuthSession) × (user : User) × (r.cookie ≡ some value)
        × (resolve_auth_session later (digest value) now db ≡ ok (session, user))
        × IsLogin later (digest value) now db session user
        × Passes s r now db p session user
  unfolding require_auth
  require_auth_lem s r now db p plain e = elim (Option-cases r.cookie) [
    | inl missing ↦ absurd (cc (rw (plain, missing) at e))
    | inr (value, found) ↦ elim (Bool-cases (value == "")) [
      | inl blank ↦ absurd (cc (rw (plain, found, blank) at e))
      | inr filled ↦ elim (Result-cases (resolve_auth_session later (digest value) now db)) [
        | inl (x, failed) ↦ absurd (cc (rw (plain, found, filled, failed) at e))
        | inr ((session, user), resolved) ↦ (
          value,
          session,
          user,
          found,
          resolved,
          resolve-IsLogin later (digest value) now db session user resolved,
          admit_allowed s r now (digest value) session user db p
              (rw (plain, found, filled, resolved) at e),
        )
      ]
    ]
  ]

  admit_idle :
      (s : Server) (r : HttpRequest) (now : ℕ) (token_hash : String) (session : AuthSession)
      (user : User) (db : Db)
      → is_safe r.route.method ≡ true
      → (r.user_activity == "1") ≡ false
      → let out =
          admit digest trim to_lower later policies job_project s r now token_hash session user
            db in
        (out.0 ≡ db) ⊎ (out.1 ≡ idle_timeout)
  unfolding admit
  admit_idle s r now token_hash session user db safe quiet =
      rung (ltb (session.last_seen_at + s.auth_session_idle_ttl) now)
        (not (is_safe r.route.method)
          && not (digest (provided_csrf digest trim to_lower r) == session.csrf_hash))
        (not (
          authorize_request (lookups db policies job_project now) r.route
            (principal_of db session user)))
        (not (is_safe r.route.method) || r.user_activity == "1")
        (revoke_auth_session token_hash db).0 (touch_auth_session session.id now db) db
        (principal_of db session user) (rw (safe, quiet) refl)
    where
      rung :
          (late forged barred moved : Bool) (gone seen same : Db) (current : Principal)
          → moved ≡ false
          → ((climb late forged barred moved gone seen same current).0 ≡ same)
            ⊎ ((climb late forged barred moved gone seen same current).1 ≡ idle_timeout)
      rung late forged barred moved gone seen same current still = ground arith

  -- Polling is no activity: a request with a safe method and without the mark of the user's activity
  -- leaves the database as it is, unless it finds the session idle for too long and ends it.
  pub polling_keeps_idle :
      (s : Server) (r : HttpRequest) (now : ℕ) (db : Db)
      → is_safe r.route.method ≡ true
      → (r.user_activity == "1") ≡ false
      → ((require_auth digest trim to_lower later policies job_project s r now db).0 ≡ db)
        ⊎ ((require_auth digest trim to_lower later policies job_project s r now db).1
            ≡ idle_timeout)
  unfolding require_auth
  polling_keeps_idle s r now db safe quiet = elim (Bool-cases (has_api_token s r)) [
    | inl token ↦ inl (rw token refl)
    | inr plain ↦ elim (Option-cases r.cookie) [
      | inl missing ↦ inl (rw (plain, missing) refl)
      | inr (value, found) ↦ elim (Bool-cases (value == "")) [
        | inl blank ↦ inl (rw (plain, found, blank) refl)
        | inr filled ↦ elim (Result-cases (resolve_auth_session later (digest value) now db)) [
          | inl (x, failed) ↦ inl (rw (plain, found, filled, failed) refl)
          | inr ((session, user), resolved) ↦
              rw (plain, found, filled, resolved)
                (admit_idle s r now (digest value) session user db safe quiet)
        ]
      ]
    ]
  ]
