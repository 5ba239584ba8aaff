-- ===== src/Api/Login/Password.antt =====
-- What a login takes.
use Prim.Native.String.{◌++◌, len}
use device_management_platfo.Base.{
  ◌≡◌, arith, String, Bool, true, false, ◌&&◌, ◌||◌, not, Option, some, ◌==◌, ltb, find, Bool-cases,
  Option-cases, Result-cases, inl, inr, err,
}
use device_management_platfo.Auth.LoginLimiter.{blocked}
use device_management_platfo.Store.{Db, User, UserMfa, TextOrder}
use device_management_platfo.Api.Login.{
  LoginServer, LoginRequest, LoginDraws, LoginState, LoginOutcome, logged_in, challenged,
  user_credential_by_username, create_challenge, authenticated, check_credential, login,
}

-- The answer takes the browser further.
abbrev pub advances : LoginOutcome → Bool
advances (logged_in session) = true
advances (challenged purpose) = true
advances _ = false

abbrev pub is_logged_in : LoginOutcome → Bool
is_logged_in (logged_in session) = true
is_logged_in _ = false

module _ (verify_password : String → String → Bool) (digest to_lower trim : String → String)
    (later : TextOrder) where
  create_challenge-session :
      (server : LoginServer) (draws : LoginDraws) (r : LoginRequest) (user : User)
      (factor : Option UserMfa) (db : Db) (outcome : LoginOutcome)
      → (create_challenge verify_password digest to_lower trim later server draws r user factor
          db).1
        ≡ err outcome
      → is_logged_in outcome ≡ false
  unfolding create_challenge
  create_challenge-session server draws r user factor db outcome e = ground arith

  authenticated-session :
      (server : LoginServer) (draws : LoginDraws) (r : LoginRequest) (username key : String)
      (user : User) (factor : Option UserMfa) (s : LoginState)
      → is_logged_in
          (authenticated verify_password digest to_lower trim later server draws r username key user
            factor s).1
        ≡ true
      → (server.mfa_enabled ≡ false) × (user.password_change_required ≡ false)
  unfolding authenticated
  authenticated-session server draws r username key user factor s e =
      elim (Bool-cases (not server.mfa_enabled && not user.password_change_required)) [
        | inl plain ↦ (ground (arith, plain), ground (arith, plain))
        | inr second ↦ elim (Bool-cases (server.mfa_enabled && not server.mfa_configured)) [
          | inl unavailable ↦ cc (rw (authenticated, second, unavailable) at e)
          | inr available ↦
              elim (Result-cases
                (create_challenge verify_password digest to_lower trim later server draws r user
                  factor s.db).1) [
                    | inl (outcome, failed) ↦
                        (let no_session =
                            create_challenge-session server draws r user factor s.db outcome
                              failed in
                          cc (rw (authenticated, second, available, failed, no_session) at e))
                    | inr (purpose, made) ↦ cc (rw (authenticated, second, available, made) at e)
                  ]
        ]
      ]

  -- The user is there and enabled, and the password verifies.
  abbrev pub Proves : LoginRequest → String → Db → LoginServer → LoginOutcome → Type 0
  Proves r username db server outcome =
      (user : User) × (find (λ u. u.username == username) db.users ≡ some user)
      × (user.enabled ≡ true)
      × (verify_password user.password_hash r.password ≡ true)
      × (is_logged_in outcome ≡ true
          → (server.mfa_enabled ≡ false) × (user.password_change_required ≡ false))

  check-Proves :
      (server : LoginServer) (draws : LoginDraws) (r : LoginRequest) (username key : String)
      (s : LoginState)
      → advances
          (check_credential verify_password digest to_lower trim later server draws r username key
            s).1
        ≡ true
      → Proves r username s.db server
          (check_credential verify_password digest to_lower trim later server draws r username key
            s).1
  unfolding check_credential user_credential_by_username
  check-Proves server draws r username key s e =
      elim (Option-cases (find (λ u. u.username == username) s.db.users)) [
        | inl absent ↦ cc (rw (check_credential, absent) at e)
        | inr (user, found) ↦
            elim (Bool-cases
              (not user.enabled || not (verify_password user.password_hash r.password))) [
                | inl refused ↦ cc (rw (check_credential, found, refused) at e)
                | inr let_in ↦ (
                  user,
                  found,
                  ground (arith, let_in),
                  ground (arith, let_in),
                  rw (check_credential, found, let_in)
                      (authenticated-session server draws r username key user
                        (find (λ m. m.user_id == user.id) s.db.user_mfa) s),
                )
              ]
      ]

  -- A login that opens a session or a challenge came from an address and for a name that are not
  -- blocked; the name is that of a user who is enabled, and the password verifies; and it opens a
  -- session only where second factors are off and the user need not change the password.
  pub login_lem :
      (server : LoginServer) (draws : LoginDraws) (r : LoginRequest) (s : LoginState)
      → advances (login verify_password digest to_lower trim later server draws r s).1 ≡ true
      → ((blocked s.login_ip_limiter r.source_ip draws.now).1.0 ≡ false)
        × ((blocked s.login_limiter
              (r.source_ip ++ ("\0" ++ to_lower (trim r.username)))
              draws.now).1.0
            ≡ false)
        × Proves r
            (trim r.username)
            s.db
            server
            (login verify_password digest to_lower trim later server draws r s).1
  unfolding login
  login_lem server draws r s e =
      let key = r.source_ip ++ ("\0" ++ to_lower (trim r.username)) in
      elim (Bool-cases (ltb 256 (len (trim r.username)) || ltb 4096 (len r.password))) [
        | inl long ↦ cc (rw (login, long) at e)
        | inr short ↦ elim (Bool-cases (blocked s.login_ip_limiter r.source_ip draws.now).1.0) [
          | inl barred ↦ cc (rw (login, short, barred) at e)
          | inr free ↦ elim (Bool-cases (blocked s.login_limiter key draws.now).1.0) [
            | inl barred ↦ cc (rw (login, short, free, barred) at e)
            | inr open_ ↦ (
              free,
              open_,
              rw (short, free, open_)
                  (check-Proves server draws r (trim r.username) key
                    (record s {
                      login_limiter = (blocked s.login_limiter key draws.now).0;
                      login_ip_limiter = (blocked s.login_ip_limiter r.source_ip draws.now).0;
                    })
                    (rw (login, short, free, open_) at e)),
            )
          ]
        ]
      ]
