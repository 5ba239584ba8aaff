-- ===== src/Settings/Pending.antt =====
-- settings.go: the configuration that is pending after Save has written its files.
use Prim.Native.String.{◌++◌}
use device_management_platfo.Base.{
  ℤ, pos, below, above, ◌≡◌, refl, ap, ◌∙◌, ◌⊎◌, inl, inr, String, true, false, some, List, [], ◌∷◌,
  ◌==◌, eq_iff, lookup, insert, lookup-insert_self, Option-cases, Bool-cases, arith, All, map,
  if◌then◌else◌,
}
use device_management_platfo.Settings.{
  Config, Texts, smtp_tls_mode_for_port, parse_optional_port, parse_port,
}
use device_management_platfo.Settings.Edit.{
  PanelSettings, Files, render_override, joined, desired_config, apply_editable_values, is_comment,
  unquoted, read_lines, read_config_file, preserve_environment_controlled_values, secret_of,
  changed, number_or_zero,
}
use device_management_platfo.Settings.Save.{commit, write_password}

-- A line of a key and a value.
abbrev pub line_of : String × String → String
line_of entry = (entry.0 ++ " = ") ++ entry.1

module _ (t : Texts) where
  -- The keys and values of the override of a configuration; `file` is "" for no password file.
  abbrev pub settings_of : Config → String → List (String × String)
  settings_of c file =
      ("mfa_enabled", t.format_bool c.mfa_enabled)
      ∷ ("mfa_methods", t.join_list c.mfa_methods)
      ∷ ("mfa_email_code_ttl", t.duration_text c.email_code_ttl)
      ∷ ("auth_session_ttl", t.duration_text c.auth_session_ttl)
      ∷ ("auth_session_idle_ttl", t.duration_text c.auth_session_idle_ttl)
      ∷ ("smtp_host", c.smtp_host)
      ∷ ("smtp_port", t.itoa c.smtp_port)
      ∷ ("smtp_username", c.smtp_username)
      ∷ ("smtp_password", "")
      ∷ ("smtp_from", c.smtp_from)
      ∷ ("tls_cert_file", c.tls_cert_file)
      ∷ ("tls_key_file", c.tls_key_file)
      ∷ ("access_tls_cert_file", c.access_tls_cert_file)
      ∷ ("access_tls_key_file", c.access_tls_key_file)
      ∷ ("access_http_port", t.itoa c.access_http_port)
      ∷ ("access_https_port", t.itoa c.access_https_port)
      ∷ ("listen_addr", c.listen_address)
      ∷ ("https_listen_addr", c.https_listen_address)
      ∷ ("panel_domain", c.panel_domain)
      ∷ ("access_domain", c.access_domain)
      ∷ ("access_scheme", c.access_scheme)
      ∷ (if file == "" then [] else ("smtp_password_file", file) ∷ [])

  abbrev title : String
  title = "# 由 设备管理平台 系统设置生成。可由部署配置或环境变量覆盖。"

  -- The line of a setting is cut at its "=" into the key and the value, which has no spaces and no pair of
  -- quotes around it.
  abbrev pub IsPlain : String × String → Type 0
  IsPlain entry =
      (key value : String) × (t.cut (t.trim_space (line_of entry)) "=" ≡ some (key, value))
      × (t.trim_space key ≡ entry.0)
      × (t.trim_space value ≡ entry.1)
      × (is_comment (t.trim_space (line_of entry)) ≡ false)
      × ((entry.0 == "") ≡ false)
      × (t.to_lower entry.0 ≡ entry.0)
      × (unquoted entry.1 ≡ entry.1)

  -- A port is printed as "0", or as a number in the range of ports.
  abbrev pub IsPort : ℤ → Type 0
  IsPort p =
      ((p ≡ pos 0) × (t.trim_space (t.itoa p) ≡ "0"))
      ⊎ ((t.atoi (t.trim_space (t.itoa p)) ≡ some p)
          × (below p 1 ≡ false)
          × (above p 65535 ≡ false)
          × ((t.trim_space (t.itoa p) == "") ≡ false)
          × ((t.trim_space (t.itoa p) == "0") ≡ false))

  -- The values of the configuration are printed so that the library reads them again.
  pub record IsReadable (c : Config) (file : String) : Type 0 where
    pub scanned :
        t.scan_lines (joined (title ∷ map line_of (settings_of c file)) ++ "\n")
        ≡ some (title ∷ map line_of (settings_of c file))
    pub titled : is_comment (t.trim_space title) ≡ true
    pub plain : All IsPlain (settings_of c file)
    pub enabled : t.parse_bool (t.format_bool c.mfa_enabled) ≡ some c.mfa_enabled
    pub methods : t.split_list (t.join_list c.mfa_methods) ≡ c.mfa_methods
    pub code_ttl : t.parse_duration (t.duration_text c.email_code_ttl) ≡ some c.email_code_ttl
    pub session_ttl :
        t.parse_duration (t.duration_text c.auth_session_ttl) ≡ some c.auth_session_ttl
    pub idle_ttl :
        t.parse_duration (t.duration_text c.auth_session_idle_ttl) ≡ some c.auth_session_idle_ttl
    pub smtp_port : t.atoi (t.itoa c.smtp_port) ≡ some c.smtp_port
    pub http_port : IsPort c.access_http_port
    pub https_port : IsPort c.access_https_port

  printed_port : (p : ℤ) → IsPort p → number_or_zero t (t.itoa p) ≡ p
  unfolding parse_optional_port parse_port
  printed_port p (inl (same, text)) =
      let zero_text : (t.trim_space (t.itoa p) == "0") ≡ true =
        (eq_iff (t.trim_space (t.itoa p)) "0").1 text in
      ground (arith, zero_text, same)
  printed_port p (inr (number, low, high, filled, other)) =
      ground (arith, filled, other, number, low, high)

  -- The settings as the reader puts them into its map.
  abbrev put : List (String × String) → List (String × String) → List (String × String)
  put values [] = values
  put values (entry ∷ rest) = put (insert entry.0 entry.1 values) rest

  read_lines-put :
      (values entries : List (String × String))
      → All IsPlain entries
      → read_lines t values (map line_of entries) ≡ some (put values entries)
  unfolding read_lines
  read_lines-put values [] h = refl
  read_lines-put values (entry ∷ rest)
        ((key, value, cut, is_key, is_value, line, filled, lower, bare), h) =
      rw (cut, line, is_key, is_value, filled, lower, bare)
        (read_lines-put (insert entry.0 entry.1 values) rest h)

  -- The line of the comment is skipped.
  read_lines-title :
      (lines : List String)
      → is_comment (t.trim_space title) ≡ true
      → read_lines t [] (title ∷ lines) ≡ read_lines t [] lines
  unfolding read_lines
  read_lines-title lines titled = elim (Option-cases (t.cut (t.trim_space title) "=")) [
    | inl uncut ↦ rw (read_lines, uncut, titled) refl
    | inr (parts, cut) ↦ rw (read_lines, cut, titled) refl
  ]

  put-settings : (c : Config) (file : String) → put [] (settings_of c file) ≡ settings_of c file
  unfolding insert
  put-settings c file = elim (Bool-cases (file == "")) [
    | inl unnamed ↦ rw (unnamed) refl
    | inr named ↦ rw (named) refl
  ]

  -- The text of an override is that of its settings, one a line.
  render_override_lem :
      (c : Config) (file : String)
      → render_override t c file ≡ joined (title ∷ map line_of (settings_of c file)) ++ "\n"
  unfolding render_override joined
  render_override_lem c file = elim (Bool-cases (file == "")) [
    | inl unnamed ↦ rw (unnamed) refl
    | inr named ↦ rw (named) refl
  ]

  -- The override of a readable configuration is read back as its settings.
  pub read-render :
      (c : Config) (file : String)
      → IsReadable c file
      → read_config_file t (some (render_override t c file)) ≡ some (settings_of c file)
  unfolding read_config_file
  read-render c file readable =
      rw (read_config_file, render_override_lem c file, readable.scanned)
        (read_lines-title (map line_of (settings_of c file)) readable.titled
          ∙ read_lines-put [] (settings_of c file) readable.plain
          ∙ ap some (put-settings c file))

  -- A configuration with the fields that no override changes from the running one.
  abbrev pub over : Config → Config → String → Config
  over active cfg password = record cfg {
    mode = active.mode;
    data_directory = active.data_directory;
    database_path = active.database_path;
    api_token = active.api_token;
    mfa_key_file = active.mfa_key_file;
    trusted_proxy_cidrs = active.trusted_proxy_cidrs;
    smtp_tls_mode = smtp_tls_mode_for_port cfg.smtp_port;
    smtp_password = password;
  }

  apply-render :
      (active cfg : Config) (file : String) (secrets : List (String × String))
      → IsReadable cfg file
      → apply_editable_values t active (settings_of cfg file) secrets
        ≡ over active cfg (
            changed t active.smtp_password
              (secret_of t (settings_of cfg file) secrets)
              t.trim_space)
  unfolding apply_editable_values lookup
  apply-render active cfg file secrets readable =
      rw
        (
          readable.enabled,
          readable.methods,
          readable.code_ttl,
          readable.session_ttl,
          readable.idle_ttl,
          readable.smtp_port,
          printed_port cfg.access_http_port readable.http_port,
          printed_port cfg.access_https_port readable.https_port,
        )
        refl

  pending_of :
      (active c : Config) (file : String) (files' : Files)
      → IsReadable c file
      → files'.override ≡ some (render_override t c file)
      → desired_config t active files'
        ≡ preserve_environment_controlled_values t active (
            over active c (
              changed t active.smtp_password
                (secret_of t (settings_of c file) files'.secrets)
                t.trim_space))
  unfolding desired_config
  pending_of active c file files' readable written =
      rw (written, read-render c file readable)
        (ap (preserve_environment_controlled_values t active)
          (apply-render active c file files'.secrets readable))

  secret_rendered :
      (managed text : String) (c : Config) (secrets : List (String × String))
      → t.trim_space managed ≡ managed
      → (managed == "") ≡ false
      → secret_of t (settings_of c managed) (insert managed text secrets) ≡ some text
  unfolding lookup
  secret_rendered managed text c secrets kept_path named =
      rw (named, kept_path, named) (lookup-insert_self managed text secrets)

  module _ (managed : String) (active c : Config) (input : PanelSettings) (files : Files) where
    -- After a save that clears the SMTP password, the pending configuration is the one that was saved,
    -- with the password of the running one.
    pub commit_cleared :
        IsReadable c ""
        → input.clear_smtp_password ≡ true
        → desired_config t active (commit t managed input c files)
          ≡ preserve_environment_controlled_values t active (over active c active.smtp_password)
    unfolding lookup commit write_password
    commit_cleared readable clear =
        pending_of active c "" (commit t managed input c files) readable (rw (clear) refl)

    -- After a save with a new SMTP password, the pending configuration is the one that was saved, with
    -- that password without spaces around it.
    pub commit_given :
        t.trim_space managed ≡ managed
        → (managed == "") ≡ false
        → IsReadable c managed
        → input.clear_smtp_password ≡ false
        → (t.trim_space input.smtp_password == "") ≡ false
        → desired_config t active (commit t managed input c files)
          ≡ preserve_environment_controlled_values t active
              (over active c (t.trim_space input.smtp_password))
    unfolding commit write_password
    commit_given kept_path named readable keeps given =
        pending_of active c managed (commit t managed input c files) readable
          (rw (keeps, given) refl)
        ∙ ap
            (λ secret.
              preserve_environment_controlled_values t active
                (over active c (changed t active.smtp_password secret t.trim_space)))
            (ap (secret_of t (settings_of c managed)) (rw (keeps, given) refl)
              ∙ secret_rendered managed input.smtp_password c files.secrets kept_path named)
