-- ===== src/Store/Users/Live.antt =====
-- auth.go, ResolveAuthSession: what it has found when it succeeds, in words that do not use it.
use device_management_platfo.Base.{
  ℕ, ◌≡◌, refl, subst, String, true, ok, ◌==◌, eq_iff, arith, find, IsIn, find-IsIn, find-test,
  Option-cases, Bool-cases, inl, inr,
}
use device_management_platfo.Store.Schema.{Db, User, AuthSession, active, TextOrder}
use device_management_platfo.Store.Access.Live.{is_active_iff}
use device_management_platfo.Store.Users.Sessions.{resolvable_auth, resolve_auth_session}

module _ (later : TextOrder) where
  -- The rows of a login: its session is active and not expired, its user is enabled.
  abbrev pub IsLogin : String → ℕ → Db → AuthSession → User → Type 0
  IsLogin token_hash now db session user =
      IsIn session db.auth_sessions
      × (session.token_hash ≡ token_hash)
      × (session.status ≡ active)
      × (later session.expires_at now ≡ true)
      × IsIn user db.users
      × (user.id ≡ session.user_id)
      × (user.enabled ≡ true)

  pub resolve-IsLogin :
      (token_hash : String) (now : ℕ) (db : Db) (session : AuthSession) (user : User)
      → resolve_auth_session later token_hash now db ≡ ok (session, user)
      → IsLogin token_hash now db session user
  unfolding resolve_auth_session resolvable_auth
  resolve-IsLogin token_hash now db session user h =
      elim (Option-cases (find (resolvable_auth later token_hash now db) db.auth_sessions)) [
        | inl absent ↦ absurd (ground (arith, absent, h))
        | inr (s, there) ↦ elim (Option-cases (find (λ u. u.id == s.user_id) db.users)) [
          | inl absent ↦ absurd (ground (arith, there, absent, h))
          | inr (u, known) ↦ elim (Bool-cases u.enabled) [
            | inr barred ↦ absurd (ground (arith, there, known, barred, h))
            | inl enabled ↦
                let same : s ≡ session = ground (arith, there, known, enabled, h) in
                let same_user : u ≡ user = ground (arith, there, known, enabled, h) in
                let both : ◌≡◌ {A = AuthSession × User} (s, u) (session, user) =
                  rw (same, same_user) refl in
                let passed =
                  find-test (resolvable_auth later token_hash now db) db.auth_sessions s there in
                subst (λ p. IsLogin token_hash now db p.0 p.1) both
                  (
                    find-IsIn _ db.auth_sessions s there,
                    (eq_iff s.token_hash token_hash).0 (ground (arith, passed)),
                    is_active_iff s.status (ground (arith, passed)),
                    ground (arith, passed),
                    find-IsIn _ db.users u known,
                    (eq_iff u.id s.user_id).0 (find-test _ db.users u known),
                    enabled,
                  )
          ]
        ]
      ]
