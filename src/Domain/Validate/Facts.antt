-- ===== src/Domain/Validate/Facts.antt =====
-- What a configuration that ValidateConfig accepts is known to satisfy.
use codex_window_reset.Base.{
  ℕ, ◌≤◌, ◌<◌, ◌≡◌, ◌≢◌, refl, inl, inr, String, Bool, true, false, List, [], ◌∷◌, Option, none,
  some, arith, All, any, is_none, Option-cases,
}
use codex_window_reset.Base.Int.{ℤ, pos, ◌≤ℤ◌, eqb_ℤ, ◌+ℤ◌}
use codex_window_reset.Base.Text.{str_eq, eq_iff, is_empty, trim_space}
use codex_window_reset.Domain.Outcome.{ok, ◌>>◌}
use codex_window_reset.Domain.Config.{Config, LocalPeriod, clock_minutes}
use codex_window_reset.Domain.Validate.{
  Check, check_weekdays, check_order, validate_periods, check_skip_times, minutes_or_zero,
  check_starts, check_preheat, check_accounts,
}

abbrev pub Distinct : {A : Type 0} → List A → Type 0
Distinct [] = Unit
Distinct (x ∷ xs) = All (λ y. y ≢ x) xs × Distinct xs

-- Both clocks of each period read, each period ends after it starts, and none starts before `e` or
-- before the end of the one above it.
abbrev pub ValidPeriods : ℕ → List LocalPeriod → Type 0
ValidPeriods e [] = Unit
ValidPeriods e (p ∷ ps) =
    (s : ℕ) × (t : ℕ) × (clock_minutes p.start ≡ some s)
    × (clock_minutes p.end ≡ some t)
    × (e ≤ s)
    × (s < t)
    × ValidPeriods t ps

abbrev pub Within : ℤ → ℤ → ℤ → Type 0
Within lo hi x = (lo ≤ℤ x) × (x ≤ℤ hi)

pub record IsValidConfig (known_zone known_account : String → Bool) (cfg : Config) : Type 0 where
  pub zone_known : known_zone cfg.timezone ≡ true
  pub zone_named : cfg.timezone ≢ "Local"
  pub weekdays_range : All (Within (pos 1) (pos 7)) cfg.weekdays
  pub weekdays_distinct : Distinct cfg.weekdays
  pub work_valid : ValidPeriods 0 cfg.work_periods
  pub blackouts_valid : ValidPeriods 0 cfg.blackout_periods
  pub productivity_positive : pos 1 ≤ℤ cfg.productivity_minutes
  pub window_hours_range : Within (pos 1) (pos 24) cfg.window_hours
  pub health_range : Within (pos 0) (pos 100) cfg.health_threshold_percent
  pub skip_clocks : All (λ v. (m : ℕ) × (clock_minutes v ≡ some m)) cfg.skip_window_times
  pub skip_distinct : Distinct cfg.skip_window_times
  pub window_floor_positive : pos 1 ≤ℤ cfg.remaining_window_floor_minutes
  pub quota_floor_range : Within (pos 0) (pos 100) cfg.remaining_quota_floor_percent
  pub long_floor_range : Within (pos 0) (pos 100) cfg.long_window_floor_percent
  pub timeout_range : Within (pos 5) (pos 120) cfg.probe_timeout_seconds
  pub model_named : is_empty (trim_space cfg.probe_model) ≡ false
  pub preheat_together : is_none cfg.preheat_lead_minutes ≡ is_none cfg.preheat_span_minutes
  pub preheat_fits :
      (lead span : ℤ)
      → cfg.preheat_lead_minutes ≡ some lead
      → cfg.preheat_span_minutes ≡ some span
      → Within (pos 1) (pos 1440) lead
        × Within (pos 1) (pos 1440) span
        × All
            (λ p. (lead +ℤ span) ≤ℤ pos (minutes_or_zero (clock_minutes p.start)))
            cfg.work_periods
  pub accounts_named : All (λ k. is_empty (trim_space k) ≡ false) cfg.scheduled_account_keys
  pub accounts_known : All (λ k. known_account k ≡ true) cfg.scheduled_account_keys
  pub accounts_distinct : Distinct cfg.scheduled_account_keys
  pub enabled_plans :
      cfg.enabled ≡ true
      → (cfg.work_periods ≢ [])
        × (is_none cfg.preheat_lead_minutes ≡ false)
        × (is_none cfg.preheat_span_minutes ≡ false)

both-ok : (a b : Check) → (a >> b) ≡ ok tt → (a ≡ ok tt) × (b ≡ ok tt)
both-ok a b h = ground arith

-- Each item that a loop lets through is none of those that it has seen.
pub weekdays-range :
    (seen ws : List ℤ) → check_weekdays seen ws ≡ ok tt → All (Within (pos 1) (pos 7)) ws
unfolding check_weekdays
weekdays-range seen [] h = tt
weekdays-range seen (w ∷ ws) h = (ground arith, weekdays-range (w ∷ seen) ws (ground arith))

weekdays-ne :
    (s : ℤ) (seen ws : List ℤ)
    → any (eqb_ℤ s) seen ≡ true
    → check_weekdays seen ws ≡ ok tt
    → All (λ w. w ≢ s) ws
unfolding check_weekdays
weekdays-ne s seen [] m h = tt
weekdays-ne s seen (w ∷ ws) m h =
    (differs, weekdays-ne s (w ∷ seen) ws (ground arith) (ground arith))
  where
    unseen : any (eqb_ℤ w) seen ≡ false
    unseen = ground arith

    differs : w ≢ s
    differs e = cc (m, unseen, e)

pub weekdays-Distinct : (seen ws : List ℤ) → check_weekdays seen ws ≡ ok tt → Distinct ws
unfolding check_weekdays
weekdays-Distinct seen [] h = tt
weekdays-Distinct seen (w ∷ ws) h = (
  weekdays-ne w (w ∷ seen) ws (ground arith) (ground arith),
  weekdays-Distinct (w ∷ seen) ws (ground arith),
)

pub skip-clocks :
    (seen vs : List String)
    → check_skip_times seen vs ≡ ok tt
    → All (λ v. (m : ℕ) × (clock_minutes v ≡ some m)) vs
unfolding check_skip_times
skip-clocks seen [] h = tt
skip-clocks seen (v ∷ vs) h = (readable, skip-clocks (v ∷ seen) vs (ground arith))
  where
    readable : (m : ℕ) × (clock_minutes v ≡ some m)
    readable = elim (Option-cases (clock_minutes v)) [ inl e ↦ absurd (ground arith) | inr r ↦ r ]

skip-ne :
    (s : String) (seen vs : List String)
    → any (str_eq s) seen ≡ true
    → check_skip_times seen vs ≡ ok tt
    → All (λ v. v ≢ s) vs
unfolding check_skip_times
skip-ne s seen [] m h = tt
skip-ne s seen (v ∷ vs) m h = (differs, skip-ne s (v ∷ seen) vs (ground arith) (ground arith))
  where
    unseen : any (str_eq v) seen ≡ false
    unseen = ground arith

    differs : v ≢ s
    differs e = cc (m, unseen, e)

pub skip-Distinct : (seen vs : List String) → check_skip_times seen vs ≡ ok tt → Distinct vs
unfolding check_skip_times
skip-Distinct seen [] h = tt
skip-Distinct seen (v ∷ vs) h = (
  skip-ne v (v ∷ seen) vs (ground (arith, eq_iff v v)) (ground arith),
  skip-Distinct (v ∷ seen) vs (ground arith),
)

pub accounts-named :
    (known : String → Bool) (seen ks : List String)
    → check_accounts known seen ks ≡ ok tt
    → All (λ k. is_empty (trim_space k) ≡ false) ks
unfolding check_accounts
accounts-named known seen [] h = tt
accounts-named known seen (k ∷ ks) h =
    (ground arith, accounts-named known (k ∷ seen) ks (ground arith))

pub accounts-known :
    (known : String → Bool) (seen ks : List String)
    → check_accounts known seen ks ≡ ok tt
    → All (λ k. known k ≡ true) ks
unfolding check_accounts
accounts-known known seen [] h = tt
accounts-known known seen (k ∷ ks) h =
    (ground arith, accounts-known known (k ∷ seen) ks (ground arith))

accounts-ne :
    (known : String → Bool) (s : String) (seen ks : List String)
    → any (str_eq s) seen ≡ true
    → check_accounts known seen ks ≡ ok tt
    → All (λ k. k ≢ s) ks
unfolding check_accounts
accounts-ne known s seen [] m h = tt
accounts-ne known s seen (k ∷ ks) m h =
    (differs, accounts-ne known s (k ∷ seen) ks (ground arith) (ground arith))
  where
    unseen : any (str_eq k) seen ≡ false
    unseen = ground arith

    differs : k ≢ s
    differs e = cc (m, unseen, e)

pub accounts-Distinct :
    (known : String → Bool) (seen ks : List String)
    → check_accounts known seen ks ≡ ok tt
    → Distinct ks
unfolding check_accounts
accounts-Distinct known seen [] h = tt
accounts-Distinct known seen (k ∷ ks) h = (
  accounts-ne known k (k ∷ seen) ks (ground (arith, eq_iff k k)) (ground arith),
  accounts-Distinct known (k ∷ seen) ks (ground arith),
)

-- The end of the previous period, 0 before the first.
abbrev floor_of : Option (ℕ × ℕ) → ℕ
floor_of none = 0
floor_of (some (s, t)) = t

order-ok :
    (previous : Option (ℕ × ℕ)) (s t : ℕ)
    → check_order previous s t ≡ ok tt
    → (floor_of previous ≤ s) × (s < t)
unfolding check_order
order-ok none s t h = ground arith
order-ok (some (a, b)) s t h = ground arith

pub periods-valid :
    (previous : Option (ℕ × ℕ)) (ps : List LocalPeriod)
    → validate_periods previous ps ≡ ok tt
    → ValidPeriods (floor_of previous) ps
unfolding validate_periods
periods-valid previous [] h = tt
periods-valid previous (p ∷ ps) h = elim (Option-cases (clock_minutes p.start)) [
  | inl e ↦ absurd (ground arith)
  | inr (s, es) ↦ elim (Option-cases (clock_minutes p.end)) [
    | inl e ↦ absurd (ground arith)
    | inr (t, et) ↦
        let (o, r) =
          both-ok (check_order previous s t) (validate_periods (some (s, t)) ps) (ground arith) in
        let k = order-ok previous s t o in
        (s, t, es, et, k.0, k.1, periods-valid (some (s, t)) ps r)
  ]
]

starts-fit :
    (total : ℤ) (ps : List LocalPeriod)
    → check_starts total ps ≡ ok tt
    → All (λ p. total ≤ℤ pos (minutes_or_zero (clock_minutes p.start))) ps
unfolding check_starts
starts-fit total [] h = tt
starts-fit total (p ∷ ps) h = (ground arith, starts-fit total ps (ground arith))

pub preheat-together :
    (lead span : Option ℤ) (ps : List LocalPeriod)
    → check_preheat lead span ps ≡ ok tt
    → is_none lead ≡ is_none span
unfolding check_preheat
preheat-together none none ps h = refl
preheat-together none (some span) ps h = cc
preheat-together (some lead) none ps h = cc
preheat-together (some lead) (some span) ps h = refl

pub preheat-fits :
    (lead span : ℤ) (ps : List LocalPeriod)
    → check_preheat (some lead) (some span) ps ≡ ok tt
    → Within (pos 1) (pos 1440) lead
      × Within (pos 1) (pos 1440) span
      × All (λ p. (lead +ℤ span) ≤ℤ pos (minutes_or_zero (clock_minutes p.start))) ps
unfolding check_preheat
preheat-fits lead span ps h =
    (ground arith, ground arith, starts-fit (lead +ℤ span) ps (ground arith))
