-- ===== src/App/Settings.antt =====
-- UpdateSchedule and discoveredAccountKeys of internal/app/runtime.go, under the lock of the
-- configuration. A revision starts at 1 and grows by one, so it stays below 2^63.
pub mod Installed
pub mod Tests
use codex_window_reset.Base.{
  ℕ, suc, String, Bool, true, false, not, ◌&&◌, List, [], ◌∷◌, Option, none, some, any, ◌==◌,
  if◌then◌else◌,
}
use codex_window_reset.Base.Text.{is_empty, str_eq}
use codex_window_reset.Domain.Outcome.{ErrorCode, Result, ok, err}
use codex_window_reset.Domain.Config.{Config, ValidationMode, default_config}
use codex_window_reset.Domain.Validate.{ConfigFault, Check, validate_config}
use codex_window_reset.Store.Disk.{Disk, StoreError}
use codex_window_reset.Store.Configs
use codex_window_reset.Schedule.Scheduler.{Scheduler, SchedulerError}
use codex_window_reset.Schedule.Scheduler.Callbacks.{Environment, Step}
use codex_window_reset.Schedule.Scheduler.Commands.{reconcile}
use codex_window_reset.App.Runtime.{Account, normalize_key, store_error_code}

-- The part of the runtime that an update reads and writes.
pub record Settings : Type 0 where
  pub config : Config
  pub disk : Disk Config
  pub store_error : ErrorCode
  pub scheduler : Scheduler

pub data UpdateError : Type 0 where
  revision_conflict accounts_not_listed : UpdateError
  rejected : ConfigFault → UpdateError
  not_saved : StoreError → UpdateError
  not_reconciled : SchedulerError → UpdateError

-- What the call returns: `none` is Config{}.
pub record Updated : Type 0 where
  pub config : Option Config
  pub error : Option UpdateError

abbrev pub Update : Type 0
Update = Settings × Updated

abbrev pub fails_with : UpdateError → Settings → Update
fails_with e s = (s, record { config = none; error = some e })

-- Whether a key is one of the accounts that were discovered.
unfoldable pub discovered : List Account → String → Bool
discovered accounts key =
    any (λ a. not (is_empty (normalize_key a.key)) && str_eq (normalize_key a.key) key) accounts

abbrev pub version_or : ℕ → ℕ → ℕ
version_or version current =
    if version == 0
    then (if current == 0 then default_config.schema_version else current)
    else version

-- The draft that is validated.
abbrev pub with_version : Config → Config → Config
with_version draft current = record draft {
  schema_version = version_or draft.schema_version current.schema_version;
}

module _ (env : Environment) where
  -- The codes of errors that are not the repository's are the plan source's.
  abbrev pub reconciled : Config → (SchedulerError → ErrorCode) → Settings → Step → Update
  reconciled c code s (scheduler, none) = (
    record s { scheduler = scheduler; store_error = ErrorCode.unset },
    record { config = some c; error = none },
  )
  reconciled c code s (scheduler, some e) = (
    record s { scheduler = scheduler; store_error = code e },
    record { config = some c; error = some (UpdateError.not_reconciled e) },
  )

  abbrev pub installed :
      Config
      → (SchedulerError → ErrorCode)
      → Settings
      → Disk Config × Result StoreError Unit
      → Update
  installed c code s (d, err e) =
      fails_with (UpdateError.not_saved e) (record s { disk = d; store_error = store_error_code e })
  installed c code s (d, ok u) =
      reconciled c code (record s { disk = d; config = c }) (reconcile env c s.scheduler)

  abbrev pub validated : Config → (SchedulerError → ErrorCode) → Settings → Check → Update
  validated draft code s (err fault) = fails_with (UpdateError.rejected fault) s
  validated draft code s (ok u) =
      let c = record draft { revision = suc s.config.revision } in
      installed c code s (Configs.save c s.disk)

  abbrev pub update_listed :
      Config → (SchedulerError → ErrorCode) → Settings → Option (List Account) → Update
  update_listed draft code s none = fails_with UpdateError.accounts_not_listed s
  update_listed draft code s (some accounts) =
      let draft' = with_version draft s.config in
      validated draft' code s
        (validate_config env.zone_known (discovered accounts) draft' ValidationMode.persisted)

  unfoldable pub update_schedule :
      Config → Option (List Account) → (SchedulerError → ErrorCode) → Settings → Update
  update_schedule draft accounts code s =
      if not (draft.revision == s.config.revision)
      then fails_with UpdateError.revision_conflict s
      else update_listed draft code s accounts
