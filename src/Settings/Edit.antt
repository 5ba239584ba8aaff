-- ===== src/Settings/Edit.antt =====
-- backend/internal/config/settings.go: the settings that an administrator edits (Save) and the pending
-- configuration (desiredConfig), with the text of the override file (renderOverride) and its reader
-- (readConfigFile of config.go). Failures of the disk are not modelled.
use Prim.Native.String.{◌++◌, len, slice}
use device_management_platfo.Gateway.Text.{has_prefix}
use device_management_platfo.Base.{
  ℤ, pos, insert, leb, ◌&&◌, ◌-◌, String, Bool, false, ◌||◌, not, Option, none, some, List, [], ◌∷◌,
  ◌==◌, if◌then◌else◌, exists, lookup, ok, err,
}
use device_management_platfo.Settings.{Config, Texts, smtp_tls_mode_for_port, parse_optional_port}

-- The fields that Save reads.
pub record PanelSettings : Type 0 where
  pub mfa_enabled : Bool
  pub mfa_methods : List String
  pub email_code_ttl : String
  pub auth_session_ttl : String
  pub auth_session_idle_ttl : String
  pub mfa_key_file : String
  pub smtp_host : String
  pub smtp_port : ℤ
  pub smtp_username : String
  pub smtp_password : String
  pub clear_smtp_password : Bool
  pub smtp_from : String
  pub tls_cert_file : String
  pub tls_key_file : String
  pub access_tls_cert_file : String
  pub access_tls_key_file : String
  pub reuse_panel_ports : Bool
  pub access_http_port : ℤ
  pub access_https_port : ℤ
  pub http_port : ℤ
  pub https_port : ℤ
  pub panel_domain : String
  pub access_domain : String

-- The files of the settings: the texts of the override file and of the configuration file, where they
-- are there, and those of the files that hold a secret.
pub record Files : Type 0 where
  pub override : Option String
  pub configured : Option String
  pub secrets : List (String × String)

-- editableEnvironment
unfoldable pub editable_environment : List (String × List String)
editable_environment =
    ("mfaEnabled", "DMP_MFA_ENABLED" ∷ [])
    ∷ ("mfaMethods", "DMP_MFA_METHODS" ∷ [])
    ∷ ("emailCodeTTL", "DMP_MFA_EMAIL_CODE_TTL" ∷ [])
    ∷ ("authSessionTTL", "DMP_AUTH_SESSION_TTL" ∷ [])
    ∷ ("authSessionIdleTTL", "DMP_AUTH_SESSION_IDLE_TTL" ∷ [])
    ∷ ("smtpHost", "DMP_SMTP_HOST" ∷ [])
    ∷ ("smtpPort", "DMP_SMTP_PORT" ∷ [])
    ∷ ("smtpUsername", "DMP_SMTP_USERNAME" ∷ [])
    ∷ ("smtpPassword", "DMP_SMTP_PASSWORD" ∷ "DMP_SMTP_PASSWORD_FILE" ∷ [])
    ∷ ("smtpFrom", "DMP_SMTP_FROM" ∷ [])
    ∷ ("tlsCertFile", "DMP_TLS_CERT_FILE" ∷ [])
    ∷ ("tlsKeyFile", "DMP_TLS_KEY_FILE" ∷ [])
    ∷ ("accessTlsCertFile", "DMP_ACCESS_TLS_CERT_FILE" ∷ [])
    ∷ ("accessTlsKeyFile", "DMP_ACCESS_TLS_KEY_FILE" ∷ [])
    ∷ ("reusePanelPorts", "DMP_ACCESS_HTTP_PORT" ∷ "DMP_ACCESS_HTTPS_PORT" ∷ [])
    ∷ ("accessHttpPort", "DMP_ACCESS_HTTP_PORT" ∷ [])
    ∷ ("accessHttpsPort", "DMP_ACCESS_HTTPS_PORT" ∷ [])
    ∷ ("panelDomain", "DMP_PANEL_DOMAIN" ∷ [])
    ∷ ("accessDomain", "DMP_ACCESS_DOMAIN" ∷ [])
    ∷ ("httpPort", "DMP_LISTEN_ADDR" ∷ [])
    ∷ ("httpsPort", "DMP_HTTPS_LISTEN_ADDR" ∷ [])
    ∷ []

abbrev pub or_this {ℓ} : {A : Type ℓ} → A → Option A → A
or_this a none = a
or_this _ (some a) = a

abbrev pub then_try {ℓ κ} : {A : Type ℓ} {B : Type κ} → Option A → (A → Option B) → Option B
then_try none f = none
then_try (some a) f = f a

abbrev pub is_true : Option Bool → Bool
is_true none = false
is_true (some b) = b

-- strings.Join(lines, "\n")
unfoldable pub joined : List String → String
joined [] = ""
joined (line ∷ []) = line
joined (line ∷ next ∷ rest) = line ++ ("\n" ++ joined (next ∷ rest))

abbrev pub is_comment : String → Bool
is_comment line = line == "" || has_prefix line "#" || has_prefix line ";"

abbrev is_wrapped : String → String → Bool
is_wrapped mark value = slice value 0 1 == mark && slice value (len value - 1) (len value) == mark

-- A value in two double or two single quotes, without them.
unfoldable pub unquoted : String → String
unquoted value =
    if leb 2 (len value) && (is_wrapped "\"" value || is_wrapped "'" value)
    then slice value 1 (len value - 1)
    else value

module _ (t : Texts) where
  abbrev pub is_set : String → Bool
  is_set name = not (t.trim_space (t.getenv name) == "")

  -- fieldLocked
  unfoldable pub field_locked : String → Bool
  field_locked field = exists is_set (or_this [] (lookup field editable_environment))

  -- The value of the running configuration where the environment controls the field.
  abbrev pub held {ℓ} : {A : Type ℓ} → String → A → A → A
  held field active desired = if field_locked field then active else desired

  unfoldable pub preserve_environment_controlled_values : Config → Config → Config
  preserve_environment_controlled_values active desired =
      let ports =
        field_locked "reusePanelPorts"
        || field_locked "accessHttpPort"
        || field_locked "accessHttpsPort" in
      record desired {
        mfa_enabled = held "mfaEnabled" active.mfa_enabled desired.mfa_enabled;
        mfa_methods = held "mfaMethods" active.mfa_methods desired.mfa_methods;
        email_code_ttl = held "emailCodeTTL" active.email_code_ttl desired.email_code_ttl;
        auth_session_ttl = held "authSessionTTL" active.auth_session_ttl desired.auth_session_ttl;
        auth_session_idle_ttl =
            held "authSessionIdleTTL" active.auth_session_idle_ttl desired.auth_session_idle_ttl;
        smtp_host = held "smtpHost" active.smtp_host desired.smtp_host;
        smtp_port = held "smtpPort" active.smtp_port desired.smtp_port;
        smtp_tls_mode = held "smtpPort" active.smtp_tls_mode desired.smtp_tls_mode;
        smtp_username = held "smtpUsername" active.smtp_username desired.smtp_username;
        smtp_password = held "smtpPassword" active.smtp_password desired.smtp_password;
        smtp_from = held "smtpFrom" active.smtp_from desired.smtp_from;
        tls_cert_file = held "tlsCertFile" active.tls_cert_file desired.tls_cert_file;
        tls_key_file = held "tlsKeyFile" active.tls_key_file desired.tls_key_file;
        access_tls_cert_file =
            held "accessTlsCertFile" active.access_tls_cert_file desired.access_tls_cert_file;
        access_tls_key_file =
            held "accessTlsKeyFile" active.access_tls_key_file desired.access_tls_key_file;
        access_http_port = if ports then active.access_http_port else desired.access_http_port;
        access_https_port = if ports then active.access_https_port else desired.access_https_port;
        listen_address = held "httpPort" active.listen_address desired.listen_address;
        https_listen_address =
            held "httpsPort" active.https_listen_address desired.https_listen_address;
        panel_domain = held "panelDomain" active.panel_domain desired.panel_domain;
        access_domain = held "accessDomain" active.access_domain desired.access_domain;
        access_scheme =
            if is_set "DMP_ACCESS_SCHEME"
            then active.access_scheme
            else held "accessDomain" active.access_scheme desired.access_scheme;
      }

  -- The content of the file that the line smtp_password_file names.
  abbrev pub secret_of : List (String × String) → List (String × String) → Option String
  secret_of values secrets =
      then_try (lookup "smtp_password_file" values)
        (λ path. if t.trim_space path == "" then none else lookup (t.trim_space path) secrets)

  abbrev pub number_or_zero : String → ℤ
  number_or_zero value = elim (parse_optional_port t value) [ err _ ↦ pos 0 | ok port ↦ port ]

  abbrev pub changed {ℓ} : {A : Type ℓ} → A → Option String → (String → A) → A
  changed a none f = a
  changed a (some value) f = f value

  unfoldable pub apply_editable_values :
      Config → List (String × String) → List (String × String) → Config
  apply_editable_values cfg values secrets =
      let get = λ (key : String). lookup key values in
      let smtp_port = or_this cfg.smtp_port (then_try (get "smtp_port") t.atoi) in
      record cfg {
        mfa_enabled = changed cfg.mfa_enabled (get "mfa_enabled") (λ v. is_true (t.parse_bool v));
        mfa_methods = changed cfg.mfa_methods (get "mfa_methods") t.split_list;
        email_code_ttl =
            or_this cfg.email_code_ttl (then_try (get "mfa_email_code_ttl") t.parse_duration);
        auth_session_ttl =
            or_this cfg.auth_session_ttl (then_try (get "auth_session_ttl") t.parse_duration);
        auth_session_idle_ttl =
            or_this cfg.auth_session_idle_ttl
              (then_try (get "auth_session_idle_ttl") t.parse_duration);
        smtp_host = or_this cfg.smtp_host (get "smtp_host");
        smtp_port = smtp_port;
        smtp_username = or_this cfg.smtp_username (get "smtp_username");
        smtp_from = or_this cfg.smtp_from (get "smtp_from");
        smtp_tls_mode = smtp_tls_mode_for_port smtp_port;
        tls_cert_file = or_this cfg.tls_cert_file (get "tls_cert_file");
        tls_key_file = or_this cfg.tls_key_file (get "tls_key_file");
        access_tls_cert_file = or_this cfg.access_tls_cert_file (get "access_tls_cert_file");
        access_tls_key_file = or_this cfg.access_tls_key_file (get "access_tls_key_file");
        access_http_port = changed cfg.access_http_port (get "access_http_port") number_or_zero;
        access_https_port = changed cfg.access_https_port (get "access_https_port") number_or_zero;
        listen_address = or_this cfg.listen_address (get "listen_addr");
        https_listen_address = or_this cfg.https_listen_address (get "https_listen_addr");
        panel_domain = or_this cfg.panel_domain (get "panel_domain");
        access_domain = or_this cfg.access_domain (get "access_domain");
        access_scheme = or_this cfg.access_scheme (get "access_scheme");
        smtp_password = changed cfg.smtp_password (secret_of values secrets) t.trim_space;
      }

  -- renderOverride; `password_file` is "" for none.
  unfoldable pub render_override : Config → String → String
  render_override cfg password_file =
      joined (
        "# 由 设备管理平台 系统设置生成。可由部署配置或环境变量覆盖。"
        ∷ ("mfa_enabled = " ++ t.format_bool cfg.mfa_enabled)
        ∷ ("mfa_methods = " ++ t.join_list cfg.mfa_methods)
        ∷ ("mfa_email_code_ttl = " ++ t.duration_text cfg.email_code_ttl)
        ∷ ("auth_session_ttl = " ++ t.duration_text cfg.auth_session_ttl)
        ∷ ("auth_session_idle_ttl = " ++ t.duration_text cfg.auth_session_idle_ttl)
        ∷ ("smtp_host = " ++ cfg.smtp_host)
        ∷ ("smtp_port = " ++ t.itoa cfg.smtp_port)
        ∷ ("smtp_username = " ++ cfg.smtp_username)
        ∷ "smtp_password = "
        ∷ ("smtp_from = " ++ cfg.smtp_from)
        ∷ ("tls_cert_file = " ++ cfg.tls_cert_file)
        ∷ ("tls_key_file = " ++ cfg.tls_key_file)
        ∷ ("access_tls_cert_file = " ++ cfg.access_tls_cert_file)
        ∷ ("access_tls_key_file = " ++ cfg.access_tls_key_file)
        ∷ ("access_http_port = " ++ t.itoa cfg.access_http_port)
        ∷ ("access_https_port = " ++ t.itoa cfg.access_https_port)
        ∷ ("listen_addr = " ++ cfg.listen_address)
        ∷ ("https_listen_addr = " ++ cfg.https_listen_address)
        ∷ ("panel_domain = " ++ cfg.panel_domain)
        ∷ ("access_domain = " ++ cfg.access_domain)
        ∷ ("access_scheme = " ++ cfg.access_scheme)
        ∷ (if password_file == "" then [] else ("smtp_password_file = " ++ password_file) ∷ []))
      ++ "\n"

  -- The loop of readConfigFile, with the values read; none for an invalid line.
  unfoldable pub read_lines : List (String × String) → List String → Option (List (String × String))
  read_lines values [] = some values
  read_lines values (text ∷ rest) =
      let line = t.trim_space text in
      let skipped = read_lines values rest in
      elim (t.cut line "=") [
        | none ↦ if is_comment line then skipped else none
        | some parts ↦
            let key = t.trim_space parts.0 in
            let value = unquoted (t.trim_space parts.1) in
            let read = read_lines (insert (t.to_lower key) value values) rest in
            if is_comment line then skipped else (if key == "" then none else read)
      ]

  -- readConfigFile; none for its errors, no values for a file that is not there.
  unfoldable pub read_config_file : Option String → Option (List (String × String))
  read_config_file none = some []
  read_config_file (some text) = elim (t.scan_lines text) [
    | none ↦ none
    | some lines ↦ read_lines [] lines
  ]

  -- The values of a file that can be read.
  abbrev pub values_in : Option String → List (String × String)
  values_in file = or_this [] (read_config_file file)

  -- desiredConfig
  unfoldable pub desired_config : Config → Files → Config
  desired_config active files =
      preserve_environment_controlled_values active (elim (values_in files.override) [
        | [] ↦ active
        | line ∷ lines ↦ apply_editable_values active (line ∷ lines) files.secrets
      ])
