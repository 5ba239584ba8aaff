-- ===== src/Examples/Panels.antt =====
-- The theorems on the settings at a concrete panel. Numbers are printed in unary, with a 0 at the end;
-- the environment has a domain of the panel.
use Prim.Native.String.{◌++◌, len}
use device_management_platfo.Base.{
  ℤ, pos, negsuc, none, eqz, below, above, zero, suc, ◌-◌, ◌≡◌, refl, String, Bool, true, false,
  Option, some, [], ◌∷◌, ◌==◌, if◌then◌else◌, exists, lookup,
}
use device_management_platfo.Settings.{
  Config, Texts, number, validate, validate_names, is_local_access_domain, parse_port,
  validate_ports, validate_security, unique_methods,
}
use device_management_platfo.Settings.Edit.{
  PanelSettings, Files, read_config_file, desired_config, preserve_environment_controlled_values,
  field_locked, editable_environment,
}
use device_management_platfo.Settings.Save.{
  save_settings, commit, normalized, candidate_of, changes, has_line_break, finish,
  normalized_domain, listen_address_with_port, normalized_methods, distinct_methods,
  reject_locked_changes,
}
use device_management_platfo.Settings.Sound.{HasOwnPorts, LeavesLocked, save_settings-HasOwnPorts}

abbrev pub itoa : ℤ → String
itoa (pos zero) = "0"
itoa (pos (suc n)) = "1" ++ itoa (pos n)
itoa (negsuc n) = "-"

abbrev pub atoi : String → Option ℤ
atoi s = some (pos (len s - 1))

abbrev pub same_text : String → String
same_text s = s

abbrev pub print_bool : Bool → String
print_bool true = "t"
print_bool false = "f"

abbrev pub texts : Texts
texts = record {
  trim_space = same_text;
  trim_dots = same_text;
  to_lower = same_text;
  ends_with = λ s suffix. false;
  contains_any = λ s chars. false;
  split_list = λ s. if s == "" then [] else s ∷ [];
  join_list = λ items. elim items [ [] ↦ "" | item ∷ _ ↦ item ];
  sort = λ items. items;
  split_host_port = λ address. some ("host", address);
  join_host_port = λ host port. port;
  atoi = atoi;
  itoa = itoa;
  parse_bool = λ s. some (s == "t");
  format_bool = print_bool;
  parse_duration = atoi;
  duration_text = itoa;
  parse_prefix = λ s. true;
  parse_address = λ s. true;
  scan_lines = λ text. some (text ∷ []);
  cut = λ line sep. none;
  getenv = λ name. if name == "DMP_PANEL_DOMAIN" then "lab.example" else "";
}

abbrev pub running : Config
running = record {
  mode = "dev";
  listen_address = "110";
  https_listen_address = "1110";
  data_directory = "data";
  database_path = "data/platform.db";
  api_token = "";
  mfa_enabled = false;
  mfa_methods = "totp" ∷ [];
  mfa_key_file = "data/mfa.key";
  email_code_ttl = pos 3;
  auth_session_ttl = pos 5;
  auth_session_idle_ttl = pos 4;
  smtp_host = "";
  smtp_port = pos 2;
  smtp_username = "";
  smtp_password = "old";
  smtp_from = "";
  smtp_tls_mode = "starttls";
  tls_cert_file = "";
  tls_key_file = "";
  access_tls_cert_file = "";
  access_tls_key_file = "";
  access_http_port = pos 0;
  access_https_port = pos 0;
  panel_domain = "";
  access_domain = "lab";
  access_scheme = "https";
  trusted_proxy_cidrs = [];
}

abbrev pub typed : PanelSettings
typed = record {
  mfa_enabled = false;
  mfa_methods = "totp" ∷ [];
  email_code_ttl = "1110";
  auth_session_ttl = "";
  auth_session_idle_ttl = "";
  mfa_key_file = "";
  smtp_host = "mail";
  smtp_port = pos 2;
  smtp_username = "";
  smtp_password = "new";
  clear_smtp_password = false;
  smtp_from = "";
  tls_cert_file = "";
  tls_key_file = "";
  access_tls_cert_file = "";
  access_tls_key_file = "";
  reuse_panel_ports = false;
  access_http_port = pos 4;
  access_https_port = pos 5;
  http_port = pos 2;
  https_port = pos 3;
  panel_domain = "";
  access_domain = "lab";
}

abbrev pub bare : Files
bare = record { override = none; configured = none; secrets = [] }

abbrev made_of : PanelSettings → Config
made_of raw =
    candidate_of texts running (desired_config texts running bare) (normalized texts raw) (pos 3)
      (pos 5) (pos 4)

abbrev files_of : PanelSettings → Files
files_of raw = commit texts "smtp-password" (normalized texts raw) (made_of raw) bare

save_settings-HasOwnPorts_example :
    ((http https : String × String) × (texts.split_host_port (made_of typed).listen_address
        ≡ some http)
      × (texts.split_host_port (made_of typed).https_listen_address ≡ some https)
      × HasOwnPorts texts "smtp-password"
          (made_of typed)
          (number (atoi http.1))
          (number (atoi https.1)))
    × LeavesLocked texts "smtp-password" running (made_of typed)
    × (files_of typed ≡ files_of typed)
unfolding save_settings field_locked exists lookup editable_environment normalized has_line_break
    finish validate validate_names candidate_of desired_config
    preserve_environment_controlled_values normalized_domain is_local_access_domain
    listen_address_with_port parse_port validate_ports validate_security unique_methods
    normalized_methods distinct_methods reject_locked_changes changes eqz below above
    read_config_file
save_settings-HasOwnPorts_example =
    save_settings-HasOwnPorts texts "smtp-password" running typed bare (made_of typed)
      (files_of typed) refl
