-- ===== src/Domain/Validate/Tests.antt =====
-- Runs of ValidateConfig, and its theorem at a full configuration.
use codex_window_reset.Base.{◌≡◌, refl, String, Bool, true, some, [], ◌∷◌}
use codex_window_reset.Base.Int.{pos}
use codex_window_reset.Base.Text.{trim_space}
use codex_window_reset.Domain.Outcome.{ok, err}
use codex_window_reset.Domain.Config.{Config, ValidationMode, default_config, clock_minutes}
use codex_window_reset.Domain.Validate.{
  ConfigFault, check_weekdays, validate_periods, check_skip_times, check_numbers, check_preheat,
  check_order, check_accounts, check_enabled, check_starts, validate_config, supported,
}
use codex_window_reset.Domain.Validate.Facts.{IsValidConfig}
use codex_window_reset.Domain.Validate.Sound.{validate_config-IsValidConfig}
use codex_window_reset.Base.Int.{◌+ℤ◌}

abbrev every : String → Bool
every s = true

abbrev active : Config
active = record default_config {
  enabled = true;
  preheat_lead_minutes = some (pos 30);
  preheat_span_minutes = some (pos 60);
  skip_window_times = "14:00" ∷ [];
  scheduled_account_keys = "acct-1" ∷ "acct-2" ∷ [];
}

active_accepted : validate_config every every active ValidationMode.persisted ≡ ok tt
unfolding validate_config check_weekdays validate_periods check_order check_skip_times check_numbers
    check_preheat check_accounts check_enabled check_starts clock_minutes trim_space ◌+ℤ◌
active_accepted = refl

early_start :
    validate_config every every
      (record active { preheat_lead_minutes = some (pos 600) })
      ValidationMode.persisted
    ≡ err ConfigFault.preheat_leaves_day
unfolding validate_config check_weekdays validate_periods check_order check_skip_times check_numbers
    check_preheat check_accounts check_enabled check_starts clock_minutes trim_space ◌+ℤ◌
early_start = refl

validate_config-IsValidConfig_example :
    (supported ValidationMode.persisted ≡ true) × IsValidConfig every every active
validate_config-IsValidConfig_example =
    validate_config-IsValidConfig every every active ValidationMode.persisted active_accepted
