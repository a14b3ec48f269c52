-- ===== src/Simulate/Tests.antt =====
-- The simulation of a day with two work periods.
use codex_window_reset.Base.{ℕ, ◌*◌, ◌≡◌, refl, arith, true, List, [], ◌∷◌}
use codex_window_reset.Base.Int.{pos, negsuc, to_int64, signed64}
use codex_window_reset.Domain.Clock.{hour}
use codex_window_reset.Domain.Config.{Config, default_config}
use codex_window_reset.Quota.Decide.{minutes}
use codex_window_reset.Simulate.Intervals.{
  Interval, clip_interval, insert_sorted, sort, merge_from, merge_sorted, merge_intervals,
  contains_instant,
}
use codex_window_reset.Simulate.Intervals.Merged.{Separated, merge_intervals_lem}
use codex_window_reset.Simulate.Cycles.{
  lesser, productivity_budget, spend, cycles, cycle_availability,
}
use codex_window_reset.Simulate.Cycles.Bounds.{
  total_length, overlap_length, spend-total_length, cycle_availability_in_work, cycles_end,
}

abbrev interval : ℕ → ℕ → Interval
interval start end = record { start = start; end = end }

abbrev work : List Interval
work = interval (9 * hour) (12 * hour) ∷ interval (13 * hour) (19 * hour) ∷ []

abbrev available : List Interval
available = (cycle_availability work (5 * hour) (pos hour) 0 (24 * hour) (7 * hour)).0

first_available : contains_instant available (9 * hour) ≡ true
unfolding cycle_availability cycles spend clip_interval merge_intervals merge_sorted merge_from sort
    insert_sorted contains_instant
first_available = refl

overlapping :
    merge_intervals (interval 5 9 ∷ interval 1 6 ∷ interval 20 20 ∷ interval 11 12 ∷ [])
    ≡ interval 1 9 ∷ interval 11 12 ∷ []
unfolding merge_intervals merge_sorted merge_from sort insert_sorted
overlapping = refl

merge_intervals_lem_example :
    (contains_instant (merge_intervals (interval 5 9 ∷ interval 1 6 ∷ [])) 4
      ≡ contains_instant (interval 5 9 ∷ interval 1 6 ∷ []) 4)
    × Separated (merge_intervals (interval 5 9 ∷ interval 1 6 ∷ []))
merge_intervals_lem_example = merge_intervals_lem 4 (interval 5 9 ∷ interval 1 6 ∷ [])

abbrev wrapped : Config
wrapped = record default_config { productivity_minutes = pos 300_000_000 }

-- 300000000 minutes: the budget is negative, and no work is available.
wrapped_budget : productivity_budget wrapped ≡ negsuc 446_744_073_709_551_615
unfolding productivity_budget minutes to_int64 signed64
wrapped_budget = refl

-- Of the three hours of work in this window, two are available.
spend-total_length_example :
    total_length (spend (interval (7 * hour) (12 * hour)) (pos (2 * hour)) work)
    ≡ lesser (overlap_length (interval (7 * hour) (12 * hour)) work) (2 * hour)
spend-total_length_example =
    spend-total_length (interval (7 * hour) (12 * hour)) (pos (2 * hour)) work

cycle_availability_in_work_example : contains_instant work (9 * hour) ≡ true
cycle_availability_in_work_example =
    cycle_availability_in_work work (5 * hour) (pos hour) 0 (24 * hour) (9 * hour) (7 * hour)
      first_available

cycles_end_example :
    cycles (interval 10 20 ∷ []) 5 (pos 3) 0 30 15 10
    ≡ cycles (interval 10 20 ∷ []) 5 (pos 3) 0 30 40 10
cycles_end_example =
    cycles_end (interval 10 20 ∷ []) 5 (pos 3) 0 30 15 40 10 (omega arith) (omega arith)
      (omega arith)
