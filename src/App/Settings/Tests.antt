-- ===== src/App/Settings/Tests.antt =====
-- An update of the schedule, and its theorem at it.
use codex_window_reset.Base.{[], ◌∷◌, some}
use codex_window_reset.Domain.Outcome.{ErrorCode}
use codex_window_reset.Domain.Config.{Config, default_config}
use codex_window_reset.Store.Disk.{File}
use codex_window_reset.Schedule.Scheduler.Commands.{new_scheduler}
use codex_window_reset.App.Tests.{account, environment, runtime}
use codex_window_reset.App.Settings.{Settings, Updated, update_schedule}
use codex_window_reset.App.Settings.Installed.{Outcome, update_schedule-Outcome}

abbrev draft : Config
draft = record default_config { scheduled_account_keys = "acct-1" ∷ [] }

abbrev settings : Settings
settings = record {
  config = default_config;
  disk = record { file = File.missing; faults = [] };
  store_error = ErrorCode.unset;
  scheduler = new_scheduler runtime.states 1000;
}

abbrev updated : Updated
updated =
    (update_schedule environment draft (some (account ∷ [])) (λ e. ErrorCode.store_corrupt)
      settings).1

update_schedule-Outcome_example : Outcome environment (some (account ∷ [])) draft settings (
    update_schedule environment draft (some (account ∷ [])) (λ e. ErrorCode.store_corrupt) settings)
update_schedule-Outcome_example =
    update_schedule-Outcome environment (some (account ∷ [])) draft (λ e. ErrorCode.store_corrupt)
      settings
