-- ===== src/Domain/Validate/Sound.antt =====
-- What each test of ValidateConfig, of internal/domain/config.go, keeps out.
use codex_window_reset.Base.{
  ◌≡◌, ◌≢◌, ap, length, String, Bool, true, false, none, some, [], arith, is_none,
}
use codex_window_reset.Base.Int.{ℤ, pos, leb_ℤ, ◌≤ℤ◌}
use codex_window_reset.Base.Text.{str_eq, eq_iff, is_empty, trim_space}
use codex_window_reset.Domain.Outcome.{ok}
use codex_window_reset.Domain.Config.{Config, ValidationMode}
use codex_window_reset.Domain.Validate.{
  check_weekdays, validate_periods, check_skip_times, check_numbers, check_preheat, check_accounts,
  check_enabled, validate_config, outside, supported,
}
use codex_window_reset.Domain.Validate.Facts.{
  IsValidConfig, Within, weekdays-range, weekdays-Distinct, skip-clocks, skip-Distinct,
  accounts-named, preheat-together, accounts-known, accounts-Distinct, periods-valid, preheat-fits,
}

-- Every check of the chain passed.
record Passed (known_zone known_account : String → Bool) (cfg : Config) : Type 0 where
  zone_named : str_eq cfg.timezone "Local" ≡ false
  zone_known : known_zone cfg.timezone ≡ true
  weekdays : check_weekdays [] cfg.weekdays ≡ ok tt
  work : validate_periods none cfg.work_periods ≡ ok tt
  blackouts : validate_periods none cfg.blackout_periods ≡ ok tt
  productivity : leb_ℤ cfg.productivity_minutes (pos 0) ≡ false
  window_hours : outside (pos 1) (pos 24) cfg.window_hours ≡ false
  health : outside (pos 0) (pos 100) cfg.health_threshold_percent ≡ false
  skip_times : check_skip_times [] cfg.skip_window_times ≡ ok tt
  numbers : check_numbers cfg ≡ ok tt
  preheat : check_preheat cfg.preheat_lead_minutes cfg.preheat_span_minutes cfg.work_periods ≡ ok tt
  accounts : check_accounts known_account [] cfg.scheduled_account_keys ≡ ok tt
  enabled : check_enabled cfg ≡ ok tt

passed :
    (known_zone known_account : String → Bool) (cfg : Config) (mode : ValidationMode)
    → validate_config known_zone known_account cfg mode ≡ ok tt
    → Passed known_zone known_account cfg
unfolding validate_config
passed known_zone known_account cfg mode h = ground arith

module _ (known_zone known_account : String → Bool) (cfg : Config)
    (p : Passed known_zone known_account cfg) where
  fits :
      (lead span : ℤ)
      → cfg.preheat_lead_minutes ≡ some lead
      → cfg.preheat_span_minutes ≡ some span
      → check_preheat (some lead) (some span) cfg.work_periods ≡ ok tt
  fits lead span el es = cc p.preheat

  enabled-plans :
      cfg.enabled ≡ true
      → (cfg.work_periods ≢ [])
        × (is_none cfg.preheat_lead_minutes ≡ false)
        × (is_none cfg.preheat_span_minutes ≡ false)
  unfolding check_enabled
  enabled-plans e = (
    (λ n. absurd (ground (arith, p.enabled, ap length n))),
    ground (arith, p.enabled),
    ground (arith, p.enabled),
  )

numbers-range :
    (cfg : Config)
    → check_numbers cfg ≡ ok tt
    → (pos 1 ≤ℤ cfg.remaining_window_floor_minutes)
      × Within (pos 0) (pos 100) cfg.remaining_quota_floor_percent
      × Within (pos 0) (pos 100) cfg.long_window_floor_percent
      × Within (pos 5) (pos 120) cfg.probe_timeout_seconds
      × (is_empty (trim_space cfg.probe_model) ≡ false)
unfolding check_numbers
numbers-range cfg h = (ground arith, ground arith, ground arith, ground arith, ground arith)

-- If ValidateConfig returns no error, then: the mode is a known one; the time
-- zone loads and is not "Local"; the weekdays lie in
-- 1..7 and are distinct; work and blackout periods are readable, sorted and disjoint; the productivity
-- and the window floor are positive, the window hours lie in 1..24, the health threshold and both
-- quota floors in 0..100, the probe timeout in 5..120, and the probe model is not blank; the skip times
-- are readable and distinct; the preheat lead and span are given together, lie in 1..1440 and fit
-- between midnight and each work period; the scheduled accounts are not blank, known and distinct; and
-- an enabled schedule has a work period, a lead and a span.
pub validate_config-IsValidConfig :
    (known_zone known_account : String → Bool) (cfg : Config) (mode : ValidationMode)
    → validate_config known_zone known_account cfg mode ≡ ok tt
    → (supported mode ≡ true) × IsValidConfig known_zone known_account cfg
unfolding validate_config
validate_config-IsValidConfig known_zone known_account cfg mode h =
    let p = passed known_zone known_account cfg mode h in
    let n = numbers-range cfg p.numbers in
    (
      ground arith,
      record {
        zone_known = p.zone_known;
        zone_named = λ e. absurd (cc ((eq_iff cfg.timezone "Local").1 e, p.zone_named));
        weekdays_range = weekdays-range [] cfg.weekdays p.weekdays;
        weekdays_distinct = weekdays-Distinct [] cfg.weekdays p.weekdays;
        work_valid = periods-valid none cfg.work_periods p.work;
        blackouts_valid = periods-valid none cfg.blackout_periods p.blackouts;
        productivity_positive = ground (arith, p.productivity);
        window_hours_range = ground (arith, p.window_hours);
        health_range = ground (arith, p.health);
        skip_clocks = skip-clocks [] cfg.skip_window_times p.skip_times;
        skip_distinct = skip-Distinct [] cfg.skip_window_times p.skip_times;
        window_floor_positive = n.0;
        quota_floor_range = n.1;
        long_floor_range = n.2;
        timeout_range = n.3;
        model_named = n.4;
        preheat_together =
            preheat-together cfg.preheat_lead_minutes cfg.preheat_span_minutes cfg.work_periods
              p.preheat;
        preheat_fits = λ lead span el es.
            preheat-fits lead span cfg.work_periods
              (fits known_zone known_account cfg p lead span el es);
        accounts_named = accounts-named known_account [] cfg.scheduled_account_keys p.accounts;
        accounts_known = accounts-known known_account [] cfg.scheduled_account_keys p.accounts;
        accounts_distinct =
            accounts-Distinct known_account [] cfg.scheduled_account_keys p.accounts;
        enabled_plans = enabled-plans known_zone known_account cfg p;
      },
    )
