-- ===== src/Domain/Config.antt =====
-- internal/domain/config.go: the configuration, its defaults, and the clock texts that it holds.
use Prim.Native.Char.{code}
use codex_window_reset.Base.{
  ℕ, ◌+◌, ◌-◌, ◌*◌, ◌<◌, String, Bool, false, ◌&&◌, List, [], ◌∷◌, Option, none, some, ◌≡◌, refl,
  arith, leb, ltb, ◌==◌, if◌then◌else◌,
}
use codex_window_reset.Base.Int.{ℤ, pos}

pub record LocalPeriod : Type 0 where
  pub start : String
  pub end : String

pub record Config : Type 0 where
  pub schema_version : ℕ
  pub revision : ℕ
  pub enabled : Bool
  pub timezone : String
  pub weekdays : List ℤ
  pub work_periods : List LocalPeriod
  pub preheat_lead_minutes : Option ℤ
  pub preheat_span_minutes : Option ℤ
  pub productivity_minutes : ℤ
  pub window_hours : ℤ
  pub health_threshold_percent : ℤ
  pub skip_window_times : List String
  pub remaining_quota_floor_percent : ℤ
  pub remaining_window_floor_minutes : ℤ
  pub long_window_floor_percent : ℤ
  pub blackout_periods : List LocalPeriod
  pub probe_model : String
  pub probe_timeout_seconds : ℤ
  pub scheduled_account_keys : List String

pub data ValidationMode : Type 0 where
  persisted simulation : ValidationMode
  other : ℕ → ValidationMode

abbrev pub default_config : Config
default_config = record {
  schema_version = 1;
  revision = 1;
  enabled = false;
  timezone = "Asia/Shanghai";
  weekdays = pos 1 ∷ pos 2 ∷ pos 3 ∷ pos 4 ∷ pos 5 ∷ [];
  work_periods =
      record { start = "09:00"; end = "12:00" } ∷ record { start = "13:30"; end = "19:00" } ∷ [];
  preheat_lead_minutes = none;
  preheat_span_minutes = none;
  productivity_minutes = pos 60;
  window_hours = pos 5;
  health_threshold_percent = pos 80;
  skip_window_times = [];
  remaining_quota_floor_percent = pos 20;
  remaining_window_floor_minutes = pos 60;
  long_window_floor_percent = pos 10;
  blackout_periods = [];
  probe_model = "gpt-5.6-luna";
  probe_timeout_seconds = pos 30;
  scheduled_account_keys = [];
}

is_digit : ℕ → Bool
is_digit c = leb 48 c && leb c 57

two_digits : ℕ → ℕ → ℕ
two_digits a b = (a - 48) * 10 + (b - 48)

clock_of : ℕ → ℕ → ℕ → ℕ → ℕ → Option ℕ
unfolding is_digit two_digits
clock_of a b colon c d =
    if is_digit a
      && is_digit b
      && (colon == 58)
      && is_digit c
      && is_digit d
      && ltb (two_digits a b) 24
      && ltb (two_digits c d) 60
    then some (two_digits a b * 60 + two_digits c d)
    else none

-- `time.Parse("15:04", v)` whose result prints as `v` again: exactly five characters HH:MM.
unfoldable pub clock_minutes : String → Option ℕ
unfolding clock_of
clock_minutes (String.◌∷◌ a (String.◌∷◌ b (String.◌∷◌ m (String.◌∷◌ c (String.◌∷◌ d String.[]))))) =
    clock_of (code a) (code b) (code m) (code c) (code d)
clock_minutes _ = none

parsed_clocks :
    (clock_minutes "09:30" ≡ some 570)
    × (clock_minutes "9:30" ≡ none)
    × (clock_minutes "24:00" ≡ none)
unfolding clock_minutes
parsed_clocks = (refl, refl, refl)

clock_of-lt : (a b m c d : ℕ) {t : ℕ} → clock_of a b m c d ≡ some t → t < 1440
unfolding clock_of
clock_of-lt a b m c d h = ground arith

-- A parsed clock is a minute of the day.
pub clock_minutes-lt : (v : String) {t : ℕ} → clock_minutes v ≡ some t → t < 1440
unfolding clock_minutes
clock_minutes-lt
      (String.◌∷◌ a (String.◌∷◌ b (String.◌∷◌ m (String.◌∷◌ c (String.◌∷◌ d String.[]))))) h =
    clock_of-lt (code a) (code b) (code m) (code c) (code d) h
clock_minutes-lt _ h = cc
