-- ===== src/Examples/Overrides.antt =====
-- The round trip of the settings at a concrete panel, with a reader of lines that trims up to three
-- spaces.
use Prim.Native.String.{len, slice}
use device_management_platfo.Base.{
  ℕ, zero, suc, ◌+◌, ◌-◌, pos, ◌≡◌, refl, String, true, false, Option, some, none, List, [], ◌∷◌,
  ◌==◌, if◌then◌else◌, inr, eqz, below, above, exists, lookup,
}
use device_management_platfo.Settings.{
  Config, Texts, validate, validate_names, is_local_access_domain, parse_port, validate_ports,
  validate_security, unique_methods,
}
use device_management_platfo.Settings.Edit.{
  PanelSettings, Files, read_config_file, desired_config, preserve_environment_controlled_values,
  field_locked, editable_environment, render_override, joined, unquoted,
}
use device_management_platfo.Settings.Save.{
  save_settings, commit, normalized, candidate_of, changes, has_line_break, finish,
  normalized_domain, listen_address_with_port, normalized_methods, distinct_methods,
  reject_locked_changes,
}
use device_management_platfo.Settings.Pending.{IsReadable, over}
use device_management_platfo.Settings.Outcome.{save_pends, cleared_password_returns}
use device_management_platfo.Examples.Panels.{texts, running, typed, bare}

abbrev trim_left : ℕ → String → String
trim_left zero s = s
trim_left (suc n) s = elim (slice s 0 1 == " ") [
  | true ↦ trim_left n (slice s 1 (len s))
  | false ↦ s
]

abbrev trim_right : ℕ → String → String
trim_right zero s = s
trim_right (suc n) s = elim (slice s (len s - 1) (len s) == " ") [
  | true ↦ trim_right n (slice s 0 (len s - 1))
  | false ↦ s
]

abbrev trim : String → String
trim s = trim_right 3 (trim_left 3 s)

abbrev cut_from : ℕ → ℕ → String → String → Option (String × String)
cut_from zero at s mark = none
cut_from (suc n) at s mark = elim (slice s at (at + 1) == mark) [
  | true ↦ some (slice s 0 at, slice s (at + 1) (len s))
  | false ↦ cut_from n (at + 1) s mark
]

abbrev cut : String → String → Option (String × String)
cut s mark = cut_from (len s) 0 s mark

abbrev lines_of : ℕ → String → List String
lines_of zero s = []
lines_of (suc n) s = elim (cut s "\n") [
  | none ↦ if s == "" then [] else s ∷ []
  | some parts ↦ parts.0 ∷ lines_of n parts.1
]

abbrev reading : Texts
reading = record texts { trim_space = trim; cut = cut; scan_lines = λ s. some (lines_of 30 s) }

abbrev clearing : PanelSettings
clearing = record typed { smtp_password = ""; clear_smtp_password = true }

abbrev made_of : PanelSettings → Config
made_of raw =
    candidate_of reading running (desired_config reading running bare) (normalized reading raw)
      (pos 3) (pos 5) (pos 4)

abbrev files_of : PanelSettings → Files
files_of raw = commit reading "smtp-password" (normalized reading raw) (made_of raw) bare

typed-IsReadable : IsReadable reading (made_of typed) "smtp-password"
unfolding render_override joined unquoted candidate_of desired_config
    preserve_environment_controlled_values normalized normalized_domain is_local_access_domain
    listen_address_with_port normalized_methods distinct_methods exists read_config_file below above
    field_locked editable_environment lookup eqz
typed-IsReadable = record {
  scanned = refl;
  titled = refl;
  plain = (
    ("mfa_enabled ", " f", refl, refl, refl, refl, refl, refl, refl),
    (
      ("mfa_methods ", " totp", refl, refl, refl, refl, refl, refl, refl),
      (
        ("mfa_email_code_ttl ", " 1110", refl, refl, refl, refl, refl, refl, refl),
        (
          ("auth_session_ttl ", " 111110", refl, refl, refl, refl, refl, refl, refl),
          (
            ("auth_session_idle_ttl ", " 11110", refl, refl, refl, refl, refl, refl, refl),
            (
              ("smtp_host ", " mail", refl, refl, refl, refl, refl, refl, refl),
              (
                ("smtp_port ", " 110", refl, refl, refl, refl, refl, refl, refl),
                (
                  ("smtp_username ", "", refl, refl, refl, refl, refl, refl, refl),
                  (
                    ("smtp_password ", "", refl, refl, refl, refl, refl, refl, refl),
                    (
                      ("smtp_from ", "", refl, refl, refl, refl, refl, refl, refl),
                      (
                        ("tls_cert_file ", "", refl, refl, refl, refl, refl, refl, refl),
                        (
                          ("tls_key_file ", "", refl, refl, refl, refl, refl, refl, refl),
                          (
                            ("access_tls_cert_file ", "", refl, refl, refl, refl, refl, refl, refl),
                            (
                              (
                                "access_tls_key_file ", "", refl, refl, refl, refl, refl, refl,
                                refl,
                              ),
                              (
                                (
                                  "access_http_port ", " 11110", refl, refl, refl, refl, refl, refl,
                                  refl,
                                ),
                                (
                                  (
                                    "access_https_port ", " 111110", refl, refl, refl, refl, refl,
                                    refl, refl,
                                  ),
                                  (
                                    (
                                      "listen_addr ", " 110", refl, refl, refl, refl, refl, refl,
                                      refl,
                                    ),
                                    (
                                      (
                                        "https_listen_addr ", " 1110", refl, refl, refl, refl, refl,
                                        refl, refl,
                                      ),
                                      (
                                        (
                                          "panel_domain ", "", refl, refl, refl, refl, refl, refl,
                                          refl,
                                        ),
                                        (
                                          (
                                            "access_domain ", " lab", refl, refl, refl, refl, refl,
                                            refl, refl,
                                          ),
                                          (
                                            (
                                              "access_scheme ", " https", refl, refl, refl, refl,
                                              refl, refl, refl,
                                            ),
                                            (
                                              (
                                                "smtp_password_file ", " smtp-password", refl, refl,
                                                refl, refl, refl, refl, refl,
                                              ),
                                              tt,
                                            ),
                                          ),
                                        ),
                                      ),
                                    ),
                                  ),
                                ),
                              ),
                            ),
                          ),
                        ),
                      ),
                    ),
                  ),
                ),
              ),
            ),
          ),
        ),
      ),
    ),
  );
  enabled = refl;
  methods = refl;
  code_ttl = refl;
  session_ttl = refl;
  idle_ttl = refl;
  smtp_port = refl;
  http_port = inr (refl, refl, refl, refl, refl);
  https_port = inr (refl, refl, refl, refl, refl);
}

clearing-IsReadable : IsReadable reading (made_of clearing) ""
unfolding render_override joined unquoted candidate_of desired_config
    preserve_environment_controlled_values normalized normalized_domain is_local_access_domain
    listen_address_with_port normalized_methods distinct_methods exists read_config_file below above
    field_locked editable_environment lookup eqz
clearing-IsReadable = record {
  scanned = refl;
  titled = refl;
  plain = (
    ("mfa_enabled ", " f", refl, refl, refl, refl, refl, refl, refl),
    (
      ("mfa_methods ", " totp", refl, refl, refl, refl, refl, refl, refl),
      (
        ("mfa_email_code_ttl ", " 1110", refl, refl, refl, refl, refl, refl, refl),
        (
          ("auth_session_ttl ", " 111110", refl, refl, refl, refl, refl, refl, refl),
          (
            ("auth_session_idle_ttl ", " 11110", refl, refl, refl, refl, refl, refl, refl),
            (
              ("smtp_host ", " mail", refl, refl, refl, refl, refl, refl, refl),
              (
                ("smtp_port ", " 110", refl, refl, refl, refl, refl, refl, refl),
                (
                  ("smtp_username ", "", refl, refl, refl, refl, refl, refl, refl),
                  (
                    ("smtp_password ", "", refl, refl, refl, refl, refl, refl, refl),
                    (
                      ("smtp_from ", "", refl, refl, refl, refl, refl, refl, refl),
                      (
                        ("tls_cert_file ", "", refl, refl, refl, refl, refl, refl, refl),
                        (
                          ("tls_key_file ", "", refl, refl, refl, refl, refl, refl, refl),
                          (
                            ("access_tls_cert_file ", "", refl, refl, refl, refl, refl, refl, refl),
                            (
                              (
                                "access_tls_key_file ", "", refl, refl, refl, refl, refl, refl,
                                refl,
                              ),
                              (
                                (
                                  "access_http_port ", " 11110", refl, refl, refl, refl, refl, refl,
                                  refl,
                                ),
                                (
                                  (
                                    "access_https_port ", " 111110", refl, refl, refl, refl, refl,
                                    refl, refl,
                                  ),
                                  (
                                    (
                                      "listen_addr ", " 110", refl, refl, refl, refl, refl, refl,
                                      refl,
                                    ),
                                    (
                                      (
                                        "https_listen_addr ", " 1110", refl, refl, refl, refl, refl,
                                        refl, refl,
                                      ),
                                      (
                                        (
                                          "panel_domain ", "", refl, refl, refl, refl, refl, refl,
                                          refl,
                                        ),
                                        (
                                          (
                                            "access_domain ", " lab", refl, refl, refl, refl, refl,
                                            refl, refl,
                                          ),
                                          (
                                            (
                                              "access_scheme ", " https", refl, refl, refl, refl,
                                              refl, refl, refl,
                                            ),
                                            tt,
                                          ),
                                        ),
                                      ),
                                    ),
                                  ),
                                ),
                              ),
                            ),
                          ),
                        ),
                      ),
                    ),
                  ),
                ),
              ),
            ),
          ),
        ),
      ),
    ),
  );
  enabled = refl;
  methods = refl;
  code_ttl = refl;
  session_ttl = refl;
  idle_ttl = refl;
  smtp_port = refl;
  http_port = inr (refl, refl, refl, refl, refl);
  https_port = inr (refl, refl, refl, refl, refl);
}

save_pends_example :
    desired_config reading running (files_of typed)
    ≡ preserve_environment_controlled_values reading running
        (over reading running (made_of typed) "new")
unfolding save_settings field_locked exists lookup editable_environment normalized has_line_break
    finish validate validate_names candidate_of desired_config
    preserve_environment_controlled_values normalized_domain is_local_access_domain
    listen_address_with_port parse_port validate_ports validate_security unique_methods
    normalized_methods distinct_methods reject_locked_changes changes eqz below above
    read_config_file
save_pends_example =
    save_pends reading "smtp-password" running typed bare (made_of typed) (files_of typed) refl refl
      refl typed-IsReadable refl refl

cleared_password_returns_example :
    desired_config reading running (files_of clearing)
    ≡ preserve_environment_controlled_values reading running
        (over reading running (made_of clearing) "old")
unfolding save_settings field_locked exists lookup editable_environment normalized has_line_break
    finish validate validate_names candidate_of desired_config
    preserve_environment_controlled_values normalized_domain is_local_access_domain
    listen_address_with_port parse_port validate_ports validate_security unique_methods
    normalized_methods distinct_methods reject_locked_changes changes eqz below above
    read_config_file
cleared_password_returns_example =
    cleared_password_returns reading "smtp-password" running clearing bare (made_of clearing)
      (files_of clearing) refl clearing-IsReadable refl
