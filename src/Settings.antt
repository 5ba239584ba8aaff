-- ===== src/Settings.antt =====
-- backend/internal/config/config.go: the configuration and its validation. Durations are nanoseconds.
-- The parsers of package net, net/netip, net/mail, strconv and time, the functions of package strings
-- and os.Getenv are the fields of Texts. `len` counts the characters of the API token, which is ASCII.
-- Errors are without their text.
pub mod Edit
pub mod Outcome
pub mod Pending
pub mod Save
pub mod Sound
use Prim.Native.String.{◌++◌, len}
use device_management_platfo.Base.{
  ℤ, pos, eqz, below, above, String, Bool, true, false, ◌&&◌, ◌||◌, not, Option, none, some, List,
  [], ◌∷◌, ◌==◌, eqb, ltb, if◌then◌else◌, exists, Result, ok, err, or_fail, require, ◌>>=◌, ◌>>◌,
}

pub record Config : Type 0 where
  pub mode : String
  pub listen_address : String
  pub https_listen_address : String
  pub data_directory : String
  pub database_path : String
  pub api_token : String
  pub mfa_enabled : Bool
  pub mfa_methods : List String
  pub mfa_key_file : String
  pub email_code_ttl : ℤ
  pub auth_session_ttl : ℤ
  pub auth_session_idle_ttl : ℤ
  pub smtp_host : String
  pub smtp_port : ℤ
  pub smtp_username : String
  pub smtp_password : String
  pub smtp_from : String
  pub smtp_tls_mode : String
  pub tls_cert_file : String
  pub tls_key_file : String
  pub access_tls_cert_file : String
  pub access_tls_key_file : String
  pub access_http_port : ℤ
  pub access_https_port : ℤ
  pub panel_domain : String
  pub access_domain : String
  pub access_scheme : String
  pub trusted_proxy_cidrs : List String

pub record Texts : Type 0 where
  pub trim_space : String → String
  pub trim_dots : String → String
  pub to_lower : String → String
  pub ends_with : String → String → Bool
  pub contains_any : String → String → Bool
  pub split_list : String → List String
  pub join_list : List String → String
  pub sort : List String → List String
  pub split_host_port : String → Option (String × String)
  pub join_host_port : String → String → String
  pub atoi : String → Option ℤ
  pub itoa : ℤ → String
  pub parse_bool : String → Option Bool
  pub format_bool : Bool → String
  pub parse_duration : String → Option ℤ
  pub duration_text : ℤ → String
  pub parse_prefix : String → Bool
  pub parse_address : String → Bool
  -- The lines that bufio.Scanner finds, unless one is too long, and strings.Cut.
  pub scan_lines : String → Option (List String)
  pub cut : String → String → Option (String × String)
  pub getenv : String → String

pub data ConfigError : Type 0 where
  bad_mode short_token bad_scheme bad_domain nested_domain bad_cidr missing_value bad_listen :
      ConfigError
  bad_port same_ports half_ports no_access_domain port_conflict half_tls no_panel_tls : ConfigError
  bad_methods no_methods no_smtp bad_from insecure_scheme : ConfigError
  -- The errors of Save.
  locked_field read_only line_break bad_duration both_passwords : ConfigError

-- smtpTLSModeForPort
unfoldable pub smtp_tls_mode_for_port : ℤ → String
smtp_tls_mode_for_port port = if eqz port (pos 465) then "tls" else "starttls"

abbrev pub both_or_none : String → String → Bool
both_or_none a b = if a == "" then b == "" else not (b == "")

abbrev zero_together : ℤ → ℤ → Bool
zero_together a b = if eqz a (pos 0) then eqz b (pos 0) else not (eqz b (pos 0))

-- The loop over MFAMethods, with the methods seen.
unfoldable pub unique_methods : List String → List String → Bool
unique_methods seen [] = true
unique_methods seen (method ∷ rest) =
    (method == "totp" || method == "email")
    && (not (exists (λ m. m == method) seen) && unique_methods (method ∷ seen) rest)

abbrev is_none_of : List String → Bool
is_none_of [] = true
is_none_of (_ ∷ _) = false

abbrev pub number : Option ℤ → ℤ
number none = pos 0
number (some n) = n

module _ (t : Texts) where
  -- parsePort
  unfoldable pub parse_port : String → Result ConfigError ℤ
  parse_port value = do
    parsed ← or_fail bad_port (t.atoi (t.trim_space value))
    require bad_port (not (below parsed 1 || above parsed 65535))
    ok parsed

  -- parseOptionalPort
  unfoldable pub parse_optional_port : String → Result ConfigError ℤ
  parse_optional_port value =
      if t.trim_space value == "" || t.trim_space value == "0" then ok (pos 0) else parse_port value

  -- isLocalAccessDomain
  unfoldable pub is_local_access_domain : String → Bool
  is_local_access_domain domain =
      domain == "localhost"
      || t.ends_with domain ".localhost"
      || t.ends_with domain ".127.0.0.1.nip.io"

  abbrev blank : String → Bool
  blank s = t.trim_space s == ""

  -- The tests of validate on the ports of the panel and of access, with the texts of the panel's ports.
  unfoldable pub validate_ports : Config → String → String → Result ConfigError (Unit {0})
  validate_ports cfg http_port https_port = do
    require same_ports (not (http_port == https_port))
    require half_ports (zero_together cfg.access_http_port cfg.access_https_port)
    let panel_http = number (t.atoi http_port)
    let panel_https = number (t.atoi https_port)
    require no_access_domain (eqz cfg.access_http_port (pos 0) || not (cfg.access_domain == ""))
    require same_ports
        (eqz cfg.access_http_port (pos 0) || not (eqz cfg.access_http_port cfg.access_https_port))
    require port_conflict (
        eqz cfg.access_http_port (pos 0)
        || not (
            eqz cfg.access_http_port panel_http
            || eqz cfg.access_http_port panel_https
            || eqz cfg.access_https_port panel_http
            || eqz cfg.access_https_port panel_https))
    ok tt

  -- The tests of validate on certificates and second factors.
  unfoldable pub validate_security : Config → Result ConfigError (Unit {0})
  validate_security cfg = do
    require half_tls (both_or_none cfg.tls_cert_file cfg.tls_key_file)
    require half_tls (both_or_none cfg.access_tls_cert_file cfg.access_tls_key_file)
    require no_panel_tls (cfg.access_tls_cert_file == "" || not (cfg.tls_cert_file == ""))
    require no_access_domain (cfg.access_tls_cert_file == "" || not (cfg.access_domain == ""))
    require bad_methods (unique_methods [] cfg.mfa_methods)
    require no_methods (not (cfg.mfa_enabled && is_none_of cfg.mfa_methods))
    require no_smtp (not (cfg.mfa_enabled && (cfg.smtp_host == "" || cfg.smtp_from == "")))
    require bad_from (not (cfg.mfa_enabled && not (t.parse_address cfg.smtp_from)))
    require insecure_scheme (
        not (
          cfg.mode == "pro"
          && (not (cfg.access_domain == "")
              && (not (cfg.access_scheme == "https")
                  && not (is_local_access_domain cfg.access_domain)))))
    ok tt

  -- The tests of validate before those on the ports.
  unfoldable pub validate_names : Config → Result ConfigError (Unit {0})
  validate_names cfg = do
    require bad_mode (cfg.mode == "dev" || cfg.mode == "pro")
    require short_token (not (cfg.mode == "pro" && ltb (len cfg.api_token) 32))
    require bad_scheme (cfg.access_scheme == "http" || cfg.access_scheme == "https")
    require bad_domain (not (t.contains_any cfg.access_domain "/: "))
    require bad_domain (not (t.contains_any cfg.panel_domain "/: "))
    require nested_domain (
        cfg.panel_domain == ""
        || cfg.access_domain == ""
        || not (
            cfg.panel_domain == cfg.access_domain
            || t.ends_with cfg.panel_domain ("." ++ cfg.access_domain)))
    require bad_cidr (not (exists (λ cidr. not (t.parse_prefix cidr)) cfg.trusted_proxy_cidrs))
    require missing_value (
        not (
          blank cfg.listen_address
          || blank cfg.https_listen_address
          || blank cfg.database_path
          || blank cfg.mfa_key_file))
    ok tt

  -- validate
  unfoldable pub validate : Config → Result ConfigError (Unit {0})
  validate cfg = do
    validate_names cfg
    http ← or_fail bad_listen (t.split_host_port cfg.listen_address)
    http_port ← parse_port http.1
    https ← or_fail bad_listen (t.split_host_port cfg.https_listen_address)
    https_port ← parse_port https.1
    validate_ports cfg http.1 https.1
    validate_security cfg
