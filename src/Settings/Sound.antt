-- ===== src/Settings/Sound.antt =====
-- settings.go: what a call of Save that succeeds has checked and written.
use device_management_platfo.Base.{
  lookup, ℤ, pos, eqz, eqz_same, eqz_apart, below, above, eq_iff, ◌≡◌, ◌≢◌, refl, sym, ap, ◌∙◌,
  subst, ◌⊎◌, inl, inr, String, Bool, false, ◌&&◌, ◌||◌, not, some, List, [], ◌∷◌, ◌==◌, exists,
  Result, ok, err, or_fail_ok, require_ok, ◌>>=◌, Bool-cases, arith, All,
}
use device_management_platfo.Settings.{
  Config, Texts, ConfigError, validate, validate_ports, validate_names, parse_port, bad_listen,
  number, locked_field, read_only, line_break, both_passwords, bad_port, same_ports,
}
use device_management_platfo.Settings.Edit.{
  PanelSettings, Files, field_locked, editable_environment, is_set, desired_config,
}
use device_management_platfo.Settings.Save.{
  save_settings, finish, commit, normalized, has_line_break, candidate_of, reject_locked_changes,
  changes, differs, text_or, duration,
}

bind_ok :
    {A B : Type 0} (m : Result ConfigError A) (f : A → Result ConfigError B) {b : B}
    → (m >>= f) ≡ ok b
    → (a : A) × (m ≡ ok a) × (f a ≡ ok b)
bind_ok (ok a) f h = (a, refl, h)
bind_ok (err e) f h = absurd (cc h)

value_of : {A : Type 0} → A → Result ConfigError A → A
value_of a (ok b) = b
value_of a (err e) = a

module _ (t : Texts) (managed : String) where
  -- What Save has done: the candidate is valid, changes no locked field, and is written.
  unfoldable pub IsSaved : Config → PanelSettings → Files → Config → Files → Type 0
  IsSaved active raw files candidate files' =
      (validate t candidate ≡ ok tt)
      × (reject_locked_changes t active candidate ≡ ok tt)
      × (files' ≡ commit t managed (normalized t raw) candidate files)

  finish-IsSaved :
      (active : Config) (raw : PanelSettings) (files : Files) (made candidate : Config)
      (files' : Files)
      → finish t managed active (normalized t raw) made files ≡ ok (candidate, files')
      → IsSaved active raw files candidate files'
  unfolding finish IsSaved value_of
  finish-IsSaved active raw files made candidate files' h =
      let (_, valid, h₁) = bind_ok (validate t made) _ h in
      let (_, unlocked, h₂) = bind_ok (reject_locked_changes t active made) _ h₁ in
      let written : (made, commit t managed (normalized t raw) made files) ≡ (candidate, files') =
        ap (value_of (candidate, files')) h₂ in
      let same : made ≡ candidate = ap (λ p. p.0) written in
      (
        subst (λ c. validate t c ≡ ok tt) same valid,
        subst (λ c. reject_locked_changes t active c ≡ ok tt) same unlocked,
        sym (ap (λ p. p.1) written) ∙ ap (λ c. commit t managed (normalized t raw) c files) same,
      )

  pub save_settings-IsSaved :
      (active : Config) (raw : PanelSettings) (files : Files) (candidate : Config) (files' : Files)
      → save_settings t managed active raw files ≡ ok (candidate, files')
      → IsSaved active raw files candidate files'
  unfolding save_settings
  save_settings-IsSaved active raw files candidate files' h =
      let input = normalized t raw in
      let pending = desired_config t active files in
      let (_, h₁) =
        require_ok locked_field
          (not (
            field_locked t "smtpPassword"
            && (not (t.trim_space raw.smtp_password == "") || raw.clear_smtp_password)))
          _ h in
      let (_, h₂) =
        require_ok read_only
          (input.mfa_key_file == "" || t.trim_space input.mfa_key_file == active.mfa_key_file) _
          h₁ in
      let (_, h₃) = require_ok line_break (not (has_line_break t input)) _ h₂ in
      let (code_ttl, _, h₄) = bind_ok (duration t input.email_code_ttl) _ h₃ in
      let (session_ttl, _, h₅) =
        bind_ok
          (duration t (text_or t (t.duration_text pending.auth_session_ttl) input.auth_session_ttl))
          _ h₄ in
      let (idle_ttl, _, h₆) =
        bind_ok
          (duration t
            (text_or t (t.duration_text pending.auth_session_idle_ttl) input.auth_session_idle_ttl))
          _ h₅ in
      let (_, h₇) =
        require_ok bad_port
          (not (
            below input.http_port 1
            || above input.http_port 65535
            || below input.https_port 1
            || above input.https_port 65535))
          _ h₆ in
      let (_, h₈) = require_ok same_ports (not (eqz input.http_port input.https_port)) _ h₇ in
      let (_, h₉) =
        require_ok both_passwords
          (not (input.clear_smtp_password && not (t.trim_space input.smtp_password == ""))) _ h₈ in
      finish-IsSaved active raw files
        (candidate_of t active pending input code_ttl session_ttl idle_ttl) candidate files' h₉

  -- The ports of the access listeners are none, or differ from each other and from those of the panel.
  pub HasOwnPorts : Config → ℤ → ℤ → Type 0
  HasOwnPorts c panel_http panel_https =
      ((c.access_http_port ≡ pos 0) × (c.access_https_port ≡ pos 0))
      ⊎ ((c.access_http_port ≢ c.access_https_port)
          × (c.access_http_port ≢ panel_http)
          × (c.access_http_port ≢ panel_https)
          × (c.access_https_port ≢ panel_http)
          × (c.access_https_port ≢ panel_https))

  validate_ports-HasOwnPorts :
      (c : Config) (http_port https_port : String)
      → validate_ports t c http_port https_port ≡ ok tt
      → HasOwnPorts c (number (t.atoi http_port)) (number (t.atoi https_port))
  unfolding validate_ports HasOwnPorts
  validate_ports-HasOwnPorts c http_port https_port h =
      let p = number (t.atoi http_port) in
      let q = number (t.atoi https_port) in
      elim (Bool-cases (eqz c.access_http_port (pos 0))) [
        | inl none_asked ↦
            inl (eqz_same _ _ none_asked, eqz_same _ _ (ground (arith, none_asked, h)))
        | inr asked ↦ inr (
          eqz_apart _ _ (ground (arith, asked, h)),
          eqz_apart _ p (ground (arith, asked, h)),
          eqz_apart _ q (ground (arith, asked, h)),
          eqz_apart _ p (ground (arith, asked, h)),
          eqz_apart _ q (ground (arith, asked, h)),
        )
      ]

  -- A valid configuration listens on two addresses, and its access ports are not theirs.
  validate-HasOwnPorts :
      (c : Config)
      → validate t c ≡ ok tt
      → (http https : String × String) × (t.split_host_port c.listen_address ≡ some http)
        × (t.split_host_port c.https_listen_address ≡ some https)
        × HasOwnPorts c (number (t.atoi http.1)) (number (t.atoi https.1))
  unfolding validate
  validate-HasOwnPorts c h =
      let (_, _, h₁) = bind_ok (validate_names t c) _ h in
      let (http, first, h₂) = or_fail_ok bad_listen (t.split_host_port c.listen_address) _ h₁ in
      let (_, _, h₃) = bind_ok (parse_port t http.1) _ h₂ in
      let (https, second, h₄) =
        or_fail_ok bad_listen (t.split_host_port c.https_listen_address) _ h₃ in
      let (_, _, h₅) = bind_ok (parse_port t https.1) _ h₄ in
      let (_, ports, _) = bind_ok (validate_ports t c http.1 https.1) _ h₅ in
      (http, https, first, second, validate_ports-HasOwnPorts c http.1 https.1 ports)

  untouched :
      (entries : List (String × Bool))
      → exists (λ change. field_locked t change.0 && change.1) entries ≡ false
      → All (λ change. (field_locked t change.0 && change.1) ≡ false) entries
  unfolding exists
  untouched [] none_locked = tt
  untouched (change ∷ rest) none_locked =
      (ground (arith, none_locked), untouched rest (ground (arith, none_locked)))

  -- A setting whose variable is set in the environment keeps its running value.
  abbrev pub LeavesLocked : Config → Config → Type 0
  LeavesLocked a c =
      ((is_set t "DMP_MFA_ENABLED" ≡ false) ⊎ (c.mfa_enabled ≡ a.mfa_enabled))
      × ((is_set t "DMP_MFA_METHODS" ≡ false)
          ⊎ (t.join_list (t.sort c.mfa_methods) ≡ t.join_list (t.sort a.mfa_methods)))
      × ((is_set t "DMP_MFA_EMAIL_CODE_TTL" ≡ false) ⊎ (c.email_code_ttl ≡ a.email_code_ttl))
      × ((is_set t "DMP_SMTP_HOST" ≡ false) ⊎ (c.smtp_host ≡ a.smtp_host))
      × ((is_set t "DMP_AUTH_SESSION_TTL" ≡ false) ⊎ (c.auth_session_ttl ≡ a.auth_session_ttl))
      × ((is_set t "DMP_AUTH_SESSION_IDLE_TTL" ≡ false)
          ⊎ (c.auth_session_idle_ttl ≡ a.auth_session_idle_ttl))
      × ((is_set t "DMP_SMTP_PORT" ≡ false) ⊎ (c.smtp_port ≡ a.smtp_port))
      × ((is_set t "DMP_SMTP_USERNAME" ≡ false) ⊎ (c.smtp_username ≡ a.smtp_username))
      × ((is_set t "DMP_SMTP_FROM" ≡ false) ⊎ (c.smtp_from ≡ a.smtp_from))
      × ((is_set t "DMP_TLS_CERT_FILE" ≡ false) ⊎ (c.tls_cert_file ≡ a.tls_cert_file))
      × ((is_set t "DMP_TLS_KEY_FILE" ≡ false) ⊎ (c.tls_key_file ≡ a.tls_key_file))
      × ((is_set t "DMP_ACCESS_TLS_CERT_FILE" ≡ false)
          ⊎ (c.access_tls_cert_file ≡ a.access_tls_cert_file))
      × ((is_set t "DMP_ACCESS_TLS_KEY_FILE" ≡ false)
          ⊎ (c.access_tls_key_file ≡ a.access_tls_key_file))
      × ((is_set t "DMP_ACCESS_HTTP_PORT" ≡ false) ⊎ (c.access_http_port ≡ a.access_http_port))
      × ((is_set t "DMP_ACCESS_HTTPS_PORT" ≡ false) ⊎ (c.access_https_port ≡ a.access_https_port))
      × ((is_set t "DMP_LISTEN_ADDR" ≡ false) ⊎ (c.listen_address ≡ a.listen_address))
      × ((is_set t "DMP_HTTPS_LISTEN_ADDR" ≡ false)
          ⊎ (c.https_listen_address ≡ a.https_listen_address))
      × ((is_set t "DMP_PANEL_DOMAIN" ≡ false) ⊎ (c.panel_domain ≡ a.panel_domain))
      × ((is_set t "DMP_ACCESS_DOMAIN" ≡ false) ⊎ (c.access_domain ≡ a.access_domain))

  text_same : (a c : String) → not (a == c) ≡ false → c ≡ a
  text_same a c h = sym ((eq_iff a c).0 (ground (arith, h)))

  number_same : (a c : ℤ) → not (eqz a c) ≡ false → c ≡ a
  number_same a c h = sym (eqz_same a c (ground (arith, h)))

  bool_same : (a c : Bool) → differs a c ≡ false → c ≡ a
  bool_same a c h = ground (arith, h)

  kept :
      {P : Type 0} (locked changed : Bool)
      → (changed ≡ false → P)
      → ((locked || false) && changed) ≡ false
      → (locked ≡ false) ⊎ P
  kept locked changed same h = elim (Bool-cases locked) [
    | inr off ↦ inl off
    | inl on ↦ inr (same (ground (arith, h, on)))
  ]

  no_locked_change :
      (active c : Config)
      → reject_locked_changes t active c ≡ ok tt
      → All (λ change. (field_locked t change.0 && change.1) ≡ false) (changes t active c)
  unfolding reject_locked_changes
  no_locked_change active c h = untouched (changes t active c) (ground (arith, h))

  reject_locked_changes_lem :
      (active c : Config) → reject_locked_changes t active c ≡ ok tt → LeavesLocked active c
  unfolding changes field_locked editable_environment exists lookup
  reject_locked_changes_lem a c h =
      let (
        h0,
        (
          h1,
          (
            h2,
            (
              h3,
              (
                h4,
                (
                  h5,
                  (
                    h6,
                    (
                      h7,
                      (
                        h8,
                        (
                          h9,
                          (h10, (h11, (h12, (h13, (h14, (h15, (h16, (h17, (h18, (h19, _)))))))))),
                        ),
                      ),
                    ),
                  ),
                ),
              ),
            ),
          ),
        ),
      ) =
        no_locked_change a c h in
      (
        kept (is_set t "DMP_MFA_ENABLED") _ (bool_same a.mfa_enabled c.mfa_enabled) h0,
        kept (is_set t "DMP_MFA_METHODS") _
            (text_same (t.join_list (t.sort a.mfa_methods)) (t.join_list (t.sort c.mfa_methods)))
            h1,
        kept (is_set t "DMP_MFA_EMAIL_CODE_TTL") _ (number_same a.email_code_ttl c.email_code_ttl)
            h2,
        kept (is_set t "DMP_SMTP_HOST") _ (text_same a.smtp_host c.smtp_host) h3,
        kept (is_set t "DMP_AUTH_SESSION_TTL") _ (number_same a.auth_session_ttl c.auth_session_ttl)
            h4,
        kept (is_set t "DMP_AUTH_SESSION_IDLE_TTL") _
            (number_same a.auth_session_idle_ttl c.auth_session_idle_ttl) h5,
        kept (is_set t "DMP_SMTP_PORT") _ (number_same a.smtp_port c.smtp_port) h6,
        kept (is_set t "DMP_SMTP_USERNAME") _ (text_same a.smtp_username c.smtp_username) h7,
        kept (is_set t "DMP_SMTP_FROM") _ (text_same a.smtp_from c.smtp_from) h8,
        kept (is_set t "DMP_TLS_CERT_FILE") _ (text_same a.tls_cert_file c.tls_cert_file) h9,
        kept (is_set t "DMP_TLS_KEY_FILE") _ (text_same a.tls_key_file c.tls_key_file) h10,
        kept (is_set t "DMP_ACCESS_TLS_CERT_FILE") _
            (text_same a.access_tls_cert_file c.access_tls_cert_file) h11,
        kept (is_set t "DMP_ACCESS_TLS_KEY_FILE") _
            (text_same a.access_tls_key_file c.access_tls_key_file) h12,
        kept (is_set t "DMP_ACCESS_HTTP_PORT") _ (number_same a.access_http_port c.access_http_port)
            h14,
        kept (is_set t "DMP_ACCESS_HTTPS_PORT") _
            (number_same a.access_https_port c.access_https_port) h15,
        kept (is_set t "DMP_LISTEN_ADDR") _ (text_same a.listen_address c.listen_address) h16,
        kept (is_set t "DMP_HTTPS_LISTEN_ADDR") _
            (text_same a.https_listen_address c.https_listen_address) h17,
        kept (is_set t "DMP_PANEL_DOMAIN") _ (text_same a.panel_domain c.panel_domain) h18,
        kept (is_set t "DMP_ACCESS_DOMAIN") _ (text_same a.access_domain c.access_domain) h19,
      )

  -- A save that succeeds writes a configuration with two addresses to listen on and access ports that are
  -- none or differ from each other and the panel's, and in which each of nineteen settings whose variable
  -- is set in the environment has its running value.
  pub save_settings-HasOwnPorts :
      (active : Config) (raw : PanelSettings) (files : Files) (candidate : Config) (files' : Files)
      → save_settings t managed active raw files ≡ ok (candidate, files')
      → ((http https : String × String) × (t.split_host_port candidate.listen_address ≡ some http)
          × (t.split_host_port candidate.https_listen_address ≡ some https)
          × HasOwnPorts candidate (number (t.atoi http.1)) (number (t.atoi https.1)))
        × LeavesLocked active candidate
        × (files' ≡ commit t managed (normalized t raw) candidate files)
  unfolding IsSaved
  save_settings-HasOwnPorts active raw files candidate files' h =
      let (valid, unlocked, written) = save_settings-IsSaved active raw files candidate files' h in
      (
        validate-HasOwnPorts candidate valid,
        reject_locked_changes_lem active candidate unlocked,
        written,
      )
