-- ===== src/Settings/Save.antt =====
-- settings.go: SettingsManager.Save, with what it compares and writes. The running configuration is an
-- argument; the mutex makes a call one step.
use device_management_platfo.Base.{
  ℤ, pos, eqz, below, above, Option, String, Bool, true, false, ◌&&◌, ◌||◌, not, none, some, List,
  [], ◌∷◌, ◌==◌, if◌then◌else◌, exists, lookup, insert, remove, Result, ok, err, or_fail, require,
  ◌>>=◌, ◌>>◌,
}
use device_management_platfo.Settings.{
  Config, Texts, ConfigError, smtp_tls_mode_for_port, validate, is_local_access_domain,
  locked_field, read_only, line_break, bad_duration, both_passwords, bad_port, same_ports,
}
use device_management_platfo.Settings.Edit.{
  PanelSettings, Files, or_this, is_set, field_locked, render_override, values_in, desired_config,
}

-- a != b on bool
abbrev pub differs : Bool → Bool → Bool
differs true b = not b
differs false b = b

module _ (t : Texts) where
  -- The loop of normalizedMethods, with the methods seen, before they are sorted.
  unfoldable pub distinct_methods : List String → List String → List String
  distinct_methods seen [] = []
  distinct_methods seen (value ∷ rest) =
      let method = t.to_lower (t.trim_space value) in
      let more = distinct_methods (method ∷ seen) rest in
      let same = distinct_methods seen rest in
      if method == "" || exists (λ m. m == method) seen then same else method ∷ more

  unfoldable pub normalized_methods : List String → List String
  normalized_methods values = t.sort (distinct_methods [] values)

  unfoldable pub normalized_domain : String → String
  normalized_domain domain = t.to_lower (t.trim_dots (t.trim_space domain))

  -- The assignments to the input at the beginning of Save.
  unfoldable pub normalized : PanelSettings → PanelSettings
  normalized input = record input {
    mfa_methods = normalized_methods input.mfa_methods;
    smtp_host = t.trim_space input.smtp_host;
    smtp_username = t.trim_space input.smtp_username;
    smtp_from = t.trim_space input.smtp_from;
    tls_cert_file = t.trim_space input.tls_cert_file;
    tls_key_file = t.trim_space input.tls_key_file;
    access_tls_cert_file = t.trim_space input.access_tls_cert_file;
    access_tls_key_file = t.trim_space input.access_tls_key_file;
    panel_domain = normalized_domain input.panel_domain;
    access_domain = normalized_domain input.access_domain;
  }

  abbrev breaks : String → Bool
  breaks value = t.contains_any value "\r\n"

  unfoldable pub has_line_break : PanelSettings → Bool
  has_line_break input = exists breaks (
      input.email_code_ttl ∷ input.smtp_host ∷ input.smtp_username ∷ input.smtp_from
      ∷ input.tls_cert_file ∷ input.tls_key_file ∷ input.access_tls_cert_file
      ∷ input.access_tls_key_file ∷ input.panel_domain ∷ input.access_domain ∷ [])

  unfoldable pub listen_address_with_port : String → ℤ → String
  listen_address_with_port address port = elim (t.split_host_port address) [
    | none ↦ t.join_host_port "0.0.0.0" (t.itoa port)
    | some parts ↦ t.join_host_port parts.0 (t.itoa port)
  ]

  abbrev methods_key : List String → String
  methods_key methods = t.join_list (t.sort methods)

  -- The map checks of rejectLockedChanges.
  unfoldable pub changes : Config → Config → List (String × Bool)
  changes a c =
      ("mfaEnabled", differs a.mfa_enabled c.mfa_enabled)
      ∷ ("mfaMethods", not (methods_key a.mfa_methods == methods_key c.mfa_methods))
      ∷ ("emailCodeTTL", not (eqz a.email_code_ttl c.email_code_ttl))
      ∷ ("smtpHost", not (a.smtp_host == c.smtp_host))
      ∷ ("authSessionTTL", not (eqz a.auth_session_ttl c.auth_session_ttl))
      ∷ ("authSessionIdleTTL", not (eqz a.auth_session_idle_ttl c.auth_session_idle_ttl))
      ∷ ("smtpPort", not (eqz a.smtp_port c.smtp_port))
      ∷ ("smtpUsername", not (a.smtp_username == c.smtp_username))
      ∷ ("smtpFrom", not (a.smtp_from == c.smtp_from))
      ∷ ("tlsCertFile", not (a.tls_cert_file == c.tls_cert_file))
      ∷ ("tlsKeyFile", not (a.tls_key_file == c.tls_key_file))
      ∷ ("accessTlsCertFile", not (a.access_tls_cert_file == c.access_tls_cert_file))
      ∷ ("accessTlsKeyFile", not (a.access_tls_key_file == c.access_tls_key_file))
      ∷ (
        "reusePanelPorts",
        differs (eqz a.access_http_port (pos 0) && eqz a.access_https_port (pos 0))
            (eqz c.access_http_port (pos 0) && eqz c.access_https_port (pos 0)),
      )
      ∷ ("accessHttpPort", not (eqz a.access_http_port c.access_http_port))
      ∷ ("accessHttpsPort", not (eqz a.access_https_port c.access_https_port))
      ∷ ("httpPort", not (a.listen_address == c.listen_address))
      ∷ ("httpsPort", not (a.https_listen_address == c.https_listen_address))
      ∷ ("panelDomain", not (a.panel_domain == c.panel_domain))
      ∷ ("accessDomain", not (a.access_domain == c.access_domain))
      ∷ []

  unfoldable pub reject_locked_changes : Config → Config → Result ConfigError (Unit {0})
  reject_locked_changes active candidate =
      if exists (λ change. field_locked t change.0 && change.1) (changes active candidate)
      then err locked_field
      else ok tt

  abbrev pub text_or : String → String → String
  text_or fallback value = if t.trim_space value == "" then fallback else value

  abbrev pub duration : String → Result ConfigError ℤ
  duration value = or_fail bad_duration (t.parse_duration (t.trim_space value))

  -- The candidate of Save, from the pending configuration, the normalized input and its durations.
  unfoldable pub candidate_of : Config → Config → PanelSettings → ℤ → ℤ → ℤ → Config
  candidate_of active pending input code_ttl session_ttl idle_ttl =
      let reuse =
        input.reuse_panel_ports
        || (eqz input.access_http_port (pos 0) && eqz input.access_https_port (pos 0)) in
      let given = not (t.trim_space input.smtp_password == "") in
      record pending {
        mfa_enabled = input.mfa_enabled;
        mfa_methods = input.mfa_methods;
        email_code_ttl = code_ttl;
        auth_session_ttl = session_ttl;
        auth_session_idle_ttl = idle_ttl;
        smtp_host = input.smtp_host;
        smtp_port = input.smtp_port;
        smtp_username = input.smtp_username;
        smtp_from = input.smtp_from;
        smtp_tls_mode = smtp_tls_mode_for_port input.smtp_port;
        tls_cert_file = input.tls_cert_file;
        tls_key_file = input.tls_key_file;
        access_tls_cert_file = input.access_tls_cert_file;
        access_tls_key_file = input.access_tls_key_file;
        access_http_port = if reuse then pos 0 else input.access_http_port;
        access_https_port = if reuse then pos 0 else input.access_https_port;
        listen_address = listen_address_with_port active.listen_address input.http_port;
        https_listen_address =
            listen_address_with_port active.https_listen_address input.https_port;
        panel_domain = input.panel_domain;
        access_domain = input.access_domain;
        access_scheme =
            if input.access_domain == ""
            then pending.access_scheme
            else (if is_local_access_domain t input.access_domain then "http" else "https");
        smtp_password =
            if input.clear_smtp_password
            then ""
            else (if given then input.smtp_password else pending.smtp_password);
      }

  -- configuredSMTPPasswordFile
  unfoldable pub configured_smtp_password_file : Files → String
  configured_smtp_password_file files =
      let path_in = λ (file : Option String).
        t.trim_space (or_this "" (lookup "smtp_password_file" (values_in t file))) in
      if is_set t "DMP_SMTP_PASSWORD_FILE"
      then t.trim_space (t.getenv "DMP_SMTP_PASSWORD_FILE")
      else (if path_in files.override == ""
          then path_in files.configured
          else path_in files.override)

  -- filepath.Join(m.active.DataDirectory, "smtp-password") is `managed`.
  module _ (managed : String) where
    -- The password file that the override names, and the files with what is written to it.
    unfoldable pub write_password : PanelSettings → Config → Files → String × Files
    write_password input candidate files =
        let configured = configured_smtp_password_file files in
        let holding =
          λ (text : String). record files { secrets = insert managed text files.secrets } in
        if input.clear_smtp_password
        then ("", files)
        else (if not (t.trim_space input.smtp_password == "")
            then (managed, holding input.smtp_password)
            else (if candidate.smtp_password == ""
                then ("", files)
                else (if configured == "" && not (is_set t "DMP_SMTP_PASSWORD")
                    then (managed, holding candidate.smtp_password)
                    else (configured, files))))

    -- The end of Save: the override file is replaced, and a cleared password removed.
    unfoldable pub commit : PanelSettings → Config → Files → Files
    commit input candidate files =
        let written = write_password input candidate files in
        let replaced : Files = record written.1 {
          override = some (render_override t candidate written.0);
        } in
        if input.clear_smtp_password
        then record replaced { secrets = remove managed replaced.secrets }
        else replaced

    -- Save from the validation of the candidate on.
    unfoldable pub finish :
        Config → PanelSettings → Config → Files → Result ConfigError (Config × Files)
    finish active input candidate files = do
      valid ← validate t candidate
      unlocked ← reject_locked_changes active candidate
      ok (candidate, commit input candidate files)

    unfoldable pub save_settings :
        Config → PanelSettings → Files → Result ConfigError (Config × Files)
    save_settings active raw files = do
      require locked_field (
          not (
            field_locked t "smtpPassword"
            && (not (t.trim_space raw.smtp_password == "") || raw.clear_smtp_password)))
      let input = normalized raw
      require read_only
          (input.mfa_key_file == "" || t.trim_space input.mfa_key_file == active.mfa_key_file)
      require line_break (not (has_line_break input))
      let pending = desired_config t active files
      code_ttl ← duration input.email_code_ttl
      session_ttl ←
          duration (text_or (t.duration_text pending.auth_session_ttl) input.auth_session_ttl)
      idle_ttl ←
          duration
            (text_or (t.duration_text pending.auth_session_idle_ttl) input.auth_session_idle_ttl)
      require bad_port (
          not (
            below input.http_port 1
            || above input.http_port 65535
            || below input.https_port 1
            || above input.https_port 65535))
      require same_ports (not (eqz input.http_port input.https_port))
      require both_passwords
          (not (input.clear_smtp_password && not (t.trim_space input.smtp_password == "")))
      finish active input (candidate_of active pending input code_ttl session_ttl idle_ttl) files
