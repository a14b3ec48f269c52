-- ===== src/Simulate/Cycles.antt =====
-- cycleAvailability of internal/simulate/service.go, and the budget that Run gives it. An overlap lies
-- within a cycle, of 24 hours at most where Run calls it, so its length fits into 64 bits.
pub mod Bounds
use codex_window_reset.Base.{
  ℕ, zero, suc, ◌+◌, ◌-◌, ◌*◌, ◌/◌, Bool, true, false, not, ◌||◌, List, [], ◌∷◌, ◌++◌, ltb, ◌==◌,
  if◌then◌else◌,
}
use codex_window_reset.Base.Int.{ℤ, pos, negsuc, leb_ℤ, sub_ℕ, to_int64, pos_part, neg_part}
use codex_window_reset.Domain.Clock.{Time, is_zero, before, minute}
use codex_window_reset.Domain.Config.{Config}
use codex_window_reset.Quota.Decide.{minutes}
use codex_window_reset.Simulate.Intervals.{
  Interval, is_real, clip_interval, merge_intervals, total_duration,
}

abbrev pub lesser : ℕ → ℕ → ℕ
lesser a b = if ltb b a then b else a

-- The budget of a cycle in Run: the product wraps at 64 bits.
unfoldable pub productivity_budget : Config → ℤ
productivity_budget cfg = minutes cfg.productivity_minutes

-- The loop over the work periods of one window, with what remains of its budget.
unfoldable pub spend : Interval → ℤ → List Interval → List Interval
spend window remaining [] = []
spend window remaining (p ∷ ps) =
    let overlap = clip_interval window.start window.end p in
    let skipped = not (is_real overlap) || leb_ℤ remaining (pos 0) in
    let used = lesser (overlap.end - overlap.start) (pos_part remaining) in
    let rest = spend window (if skipped then remaining else pos (pos_part remaining - used)) ps in
    if skipped then rest else record { start = overlap.start; end = overlap.start + used } ∷ rest

abbrev pub last_end : List Interval → Time
last_end [] = 0
last_end (i ∷ []) = i.end
last_end (i ∷ j ∷ is) = last_end (j ∷ is)

abbrev pub is_nil : List Interval → Bool
is_nil [] = true
is_nil (i ∷ is) = false

-- The available intervals and the windows.
abbrev pub Cycles : Type 0
Cycles = List Interval × List Interval

module _ (work : List Interval) (cycle : ℕ) (budget : ℤ) (day_start day_end : Time) where
  abbrev pub window_at : Time → Interval
  window_at start = clip_interval day_start day_end (record { start = start; end = start + cycle })

  -- The loop over the cycles, before the merges.
  unfoldable pub cycles : ℕ → Time → Cycles
  cycles zero start = ([], [])
  cycles (suc fuel) start = elim (before start (last_end work)) [
    | false ↦ ([], [])
    | true ↦
        let rest = cycles fuel (start + cycle) in
        (spend (window_at start) budget work ++ rest.0, window_at start ∷ rest.1)
  ]

  unfoldable pub cycle_availability : Time → Cycles
  cycle_availability anchor =
      if is_nil work || is_zero anchor
      then ([], [])
      else let found = cycles (last_end work - anchor) anchor in
        (merge_intervals found.0, merge_intervals found.1)

-- A difference of durations of 64 bits.
abbrev pub duration_minus : ℤ → ℤ → ℤ
duration_minus a b = to_int64 (sub_ℕ (pos_part a + neg_part b) (neg_part a + pos_part b))

abbrev pub at_least_zero : ℤ → ℤ
at_least_zero (pos n) = pos n
at_least_zero (negsuc n) = pos 0

unfoldable pub idle_duration : List Interval → ℤ → ℤ
idle_duration windows coverage = at_least_zero (duration_minus (total_duration windows) coverage)

unfoldable pub whole_minutes : ℤ → ℤ
whole_minutes (pos n) = pos (n / minute)
whole_minutes (negsuc n) = pos 0
