-- ===== src/Domain/Validate.antt =====
-- ValidateConfig and validatePeriods of internal/domain/config.go. Each error message is a
-- constructor of `ConfigFault`; what the host knows of a time zone is the argument `known_zone`.
pub mod Facts
pub mod Sound
pub mod Tests
use codex_window_reset.Base.{
  ℕ, ◌+◌, String, Bool, true, false, not, ◌&&◌, ◌||◌, List, [], ◌∷◌, Option, none, some, ltb, leb,
  if◌then◌else◌, any, is_none, length, ◌==◌,
}
use codex_window_reset.Base.Int.{ℤ, pos, leb_ℤ, ltb_ℤ, eqb_ℤ, ◌+ℤ◌}
use codex_window_reset.Base.Text.{str_eq, is_empty, trim_space}
use codex_window_reset.Domain.Outcome.{Result, ok, err, ◌>>◌}
use codex_window_reset.Domain.Config.{Config, LocalPeriod, ValidationMode, clock_minutes}

pub data ConfigFault : Type 0 where
  unsupported_mode timezone_invalid weekday_range weekday_duplicate : ConfigFault
  start_clock end_clock ends_before_start unsorted overlapping : ConfigFault
  productivity_range window_hours_range health_range skip_clock skip_duplicate : ConfigFault
  window_floor_range quota_floor_range long_floor_range timeout_range model_empty : ConfigFault
  lead_without_span lead_range span_range preheat_leaves_day : ConfigFault
  account_empty account_duplicate account_unknown no_work_period no_preheat : ConfigFault

abbrev pub Check : Type 0
Check = Result ConfigFault Unit

abbrev pub reject_if : Bool → ConfigFault → Check
reject_if true f = err f
reject_if false f = ok tt

abbrev pub outside : ℤ → ℤ → ℤ → Bool
outside lo hi x = ltb_ℤ x lo || ltb_ℤ hi x

abbrev pub supported : ValidationMode → Bool
supported (ValidationMode.other n) = false
supported _ = true

-- The loop over the weekdays, with the map of those seen.
pub check_weekdays : List ℤ → List ℤ → Check
check_weekdays seen [] = ok tt
check_weekdays seen (w ∷ ws) =
    let rest = check_weekdays (w ∷ seen) ws in
    reject_if (outside (pos 1) (pos 7) w) weekday_range
    >> reject_if (any (eqb_ℤ w) seen) weekday_duplicate
    >> rest

-- What the loop body tests once both clocks are parsed; the previous period is absent at index 0.
pub check_order : Option (ℕ × ℕ) → ℕ → ℕ → Check
check_order none start end = reject_if (leb end start) ends_before_start
check_order (some (previous_start, previous_end)) start end =
    reject_if (leb end start) ends_before_start
    >> reject_if (ltb start previous_start) unsorted
    >> reject_if (ltb start previous_end) overlapping

pub validate_periods : Option (ℕ × ℕ) → List LocalPeriod → Check
validate_periods previous [] = ok tt
validate_periods previous (p ∷ ps) = elim (clock_minutes p.start) [
  | none ↦ err start_clock
  | some start ↦ elim (clock_minutes p.end) [
    | none ↦ err end_clock
    | some end ↦ check_order previous start end >> validate_periods (some (start, end)) ps
  ]
]

pub check_skip_times : List String → List String → Check
check_skip_times seen [] = ok tt
check_skip_times seen (v ∷ vs) =
    let rest = check_skip_times (v ∷ seen) vs in
    reject_if (is_none (clock_minutes v)) skip_clock
    >> reject_if (any (str_eq v) seen) skip_duplicate
    >> rest

pub check_numbers : Config → Check
check_numbers cfg =
    reject_if (leb_ℤ cfg.remaining_window_floor_minutes (pos 0)) window_floor_range
    >> reject_if (outside (pos 0) (pos 100) cfg.remaining_quota_floor_percent) quota_floor_range
    >> reject_if (outside (pos 0) (pos 100) cfg.long_window_floor_percent) long_floor_range
    >> reject_if (outside (pos 5) (pos 120) cfg.probe_timeout_seconds) timeout_range
    >> reject_if (is_empty (trim_space cfg.probe_model)) model_empty

-- The work periods must start late enough for the preheat window; an unreadable clock counts as 0.
abbrev pub minutes_or_zero : Option ℕ → ℕ
minutes_or_zero none = 0
minutes_or_zero (some m) = m

pub check_starts : ℤ → List LocalPeriod → Check
check_starts total [] = ok tt
check_starts total (p ∷ ps) =
    let rest = check_starts total ps in
    reject_if (ltb_ℤ (pos (minutes_or_zero (clock_minutes p.start))) total) preheat_leaves_day
    >> rest

pub check_preheat : Option ℤ → Option ℤ → List LocalPeriod → Check
check_preheat none none periods = ok tt
check_preheat none (some span) periods = err lead_without_span
check_preheat (some lead) none periods = err lead_without_span
check_preheat (some lead) (some span) periods =
    reject_if (outside (pos 1) (pos 1440) lead) lead_range
    >> reject_if (outside (pos 1) (pos 1440) span) span_range
    >> check_starts (lead +ℤ span) periods

pub check_accounts : (String → Bool) → List String → List String → Check
check_accounts known seen [] = ok tt
check_accounts known seen (k ∷ ks) =
    let rest = check_accounts known (k ∷ seen) ks in
    reject_if (is_empty (trim_space k)) account_empty
    >> reject_if (any (str_eq k) seen) account_duplicate
    >> reject_if (not (known k)) account_unknown
    >> rest

pub check_enabled : Config → Check
check_enabled cfg =
    if cfg.enabled
    then reject_if (length cfg.work_periods == 0) no_work_period
      >> reject_if (is_none cfg.preheat_lead_minutes || is_none cfg.preheat_span_minutes) no_preheat
    else ok tt

pub validate_config : (String → Bool) → (String → Bool) → Config → ValidationMode → Check
validate_config known_zone known_account cfg mode =
    reject_if (not (supported mode)) unsupported_mode
    >> reject_if (str_eq cfg.timezone "Local") timezone_invalid
    >> reject_if (not (known_zone cfg.timezone)) timezone_invalid
    >> check_weekdays [] cfg.weekdays
    >> validate_periods none cfg.work_periods
    >> validate_periods none cfg.blackout_periods
    >> reject_if (leb_ℤ cfg.productivity_minutes (pos 0)) productivity_range
    >> reject_if (outside (pos 1) (pos 24) cfg.window_hours) window_hours_range
    >> reject_if (outside (pos 0) (pos 100) cfg.health_threshold_percent) health_range
    >> check_skip_times [] cfg.skip_window_times
    >> check_numbers cfg
    >> check_preheat cfg.preheat_lead_minutes cfg.preheat_span_minutes cfg.work_periods
    >> check_accounts known_account [] cfg.scheduled_account_keys
    >> check_enabled cfg
