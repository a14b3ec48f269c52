-- ===== src/Store/Configs.antt =====
-- internal/store/config.go: the configuration on disk.
pub mod Reloaded
use codex_window_reset.Base.{ℕ, Bool, if◌then◌else◌, ◌==◌}
use codex_window_reset.Base.Int.{pos, eqb_ℤ}
use codex_window_reset.Domain.Outcome.{Result, ok, err}
use codex_window_reset.Domain.Config.{Config, default_config}
use codex_window_reset.Store.Disk.{Disk, File, StoreError, read_json, write_atomic}
use codex_window_reset.Store.Runtime.{persisted_schema_version}

-- A document of an early build has no window strategy: zero values are filled in.
pub fill_defaults : Config → Config
fill_defaults c = record c {
  window_hours =
      if eqb_ℤ c.window_hours (pos 0) then default_config.window_hours else c.window_hours;
  health_threshold_percent =
      if eqb_ℤ c.health_threshold_percent (pos 0)
      then default_config.health_threshold_percent
      else c.health_threshold_percent;
}

abbrev created : Disk Config × Result StoreError Unit → Disk Config × Result StoreError Config
created (d, ok u) = (d, ok default_config)
created (d, err e) = (d, err e)

-- A missing document is created with the defaults.
abbrev load_document :
    Disk Config × Result StoreError (File Config) → Disk Config × Result StoreError Config
load_document (d, err e) = (d, err e)
load_document (d, ok (File.holds c)) =
    if c.schema_version == persisted_schema_version
    then (d, ok (fill_defaults c))
    else (d, err StoreError.unsupported_schema)
load_document (d, ok f) = created (write_atomic default_config d)

pub load : Disk Config → Disk Config × Result StoreError Config
unfolding fill_defaults
load d = load_document (read_json d)

abbrev pub versioned : Config → Config
versioned c = record c {
  schema_version = if c.schema_version == 0 then persisted_schema_version else c.schema_version;
}

unfoldable pub save : Config → Disk Config → Disk Config × Result StoreError Unit
save c d =
    if (versioned c).schema_version == persisted_schema_version
    then write_atomic (versioned c) d
    else (d, err StoreError.unsupported_schema)
