-- ===== src/Settings/Outcome.antt =====
-- settings.go: from a call of Save to the configuration that is pending after it.
use device_management_platfo.Base.{◌≡◌, ap, ◌∙◌, String, true, false, ◌==◌, ok}
use device_management_platfo.Settings.{Config, Texts}
use device_management_platfo.Settings.Edit.{
  PanelSettings, Files, desired_config, preserve_environment_controlled_values,
}
use device_management_platfo.Settings.Save.{save_settings, normalized}
use device_management_platfo.Settings.Sound.{IsSaved, save_settings-IsSaved}
use device_management_platfo.Settings.Pending.{IsReadable, over, commit_cleared, commit_given}

module _ (t : Texts) (managed : String) where
  -- After a save with a new SMTP password, where the path of the password file has no spaces around it
  -- and the configuration saved is readable (the library reads what it prints of it, a port is 0 or in
  -- range, and no value has spaces, a pair of quotes or a line break that the reader of the file would
  -- take for its own): the pending configuration is the one saved, with that password trimmed and what
  -- the environment controls as it runs.
  pub save_pends :
      (active : Config) (raw : PanelSettings) (files : Files) (c : Config) (files' : Files)
      → save_settings t managed active raw files ≡ ok (c, files')
      → t.trim_space managed ≡ managed
      → (managed == "") ≡ false
      → IsReadable t c managed
      → raw.clear_smtp_password ≡ false
      → (t.trim_space raw.smtp_password == "") ≡ false
      → desired_config t active files'
        ≡ preserve_environment_controlled_values t active
            (over t active c (t.trim_space raw.smtp_password))
  unfolding IsSaved normalized
  save_pends active raw files c files' saved kept_path named readable keeps given =
      let (_, _, written) = save_settings-IsSaved t managed active raw files c files' saved in
      ap (desired_config t active) written
      ∙ commit_given t managed active c (normalized t raw) files kept_path named readable keeps
          given

  -- After a save that clears the SMTP password, where the configuration saved is readable: the pending
  -- configuration is the one saved, but with the password of the running one, and with what the
  -- environment controls as it runs.
  pub cleared_password_returns :
      (active : Config) (raw : PanelSettings) (files : Files) (c : Config) (files' : Files)
      → save_settings t managed active raw files ≡ ok (c, files')
      → IsReadable t c ""
      → raw.clear_smtp_password ≡ true
      → desired_config t active files'
        ≡ preserve_environment_controlled_values t active (over t active c active.smtp_password)
  unfolding IsSaved normalized
  cleared_password_returns active raw files c files' saved readable clear =
      let (_, _, written) = save_settings-IsSaved t managed active raw files c files' saved in
      ap (desired_config t active) written
      ∙ commit_cleared t managed active c (normalized t raw) files readable clear
