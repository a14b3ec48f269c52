-- ===== src/Store/Configs/Reloaded.antt =====
-- What a saved configuration is when it is loaded again.
use codex_window_reset.Base.{ℕ, ◌≤◌, [], ◌≡◌, inl, inr, arith, ◌==◌, if◌then◌else◌, Bool-cases}
use codex_window_reset.Base.Int.{ℤ, pos, eqb_ℤ, ◌≤ℤ◌}
use codex_window_reset.Domain.Outcome.{ok}
use codex_window_reset.Domain.Config.{Config}
use codex_window_reset.Store.Disk.{Disk, File, read_json, write_atomic}
use codex_window_reset.Store.Configs.{fill_defaults, load, save}

first_version : (n : ℕ) → n ≤ 1 → (if n == 0 then 1 else n) ≡ 1
first_version n h = ground arith

given_hours : (w x : ℤ) → pos 1 ≤ℤ w → (if eqb_ℤ w (pos 0) then x else w) ≡ w
given_hours w x h = elim (Bool-cases (eqb_ℤ w (pos 0))) [
  | inl t ↦ absurd (ground (arith, t, h))
  | inr n ↦ rw n
]

-- On a disk without faults, a configuration of schema version 0 or 1 with at least one window hour
-- is saved, and loaded again as it was, with the version 1, except that a health threshold of 0
-- comes back as 80.
pub load-save :
    (c : Config) (f : File Config)
    → c.schema_version ≤ 1
    → pos 1 ≤ℤ c.window_hours
    → let d : Disk Config = record { file = f; faults = [] } in
      ((save c d).1 ≡ ok tt)
      × ((load (save c d).0).1
          ≡ ok (record c {
            schema_version = 1;
            health_threshold_percent =
                if eqb_ℤ c.health_threshold_percent (pos 0)
                then pos 80
                else c.health_threshold_percent;
          }))
unfolding save load fill_defaults read_json write_atomic
load-save c f v h = (
  rw (first_version c.schema_version v),
  rw (first_version c.schema_version v, given_hours c.window_hours (pos 5) h),
)
