-- ===== src/Simulate/Intervals.antt =====
-- timeInterval of internal/simulate/service.go, with mergeIntervals, clipInterval and containsInstant.
-- sort.Slice orders intervals by their start and then their end, which leaves no choice.
pub mod Merged
use codex_window_reset.Base.{
  ℕ, ◌-◌, ◌+◌, Bool, true, false, not, ◌&&◌, ◌||◌, List, [], ◌∷◌, any, keep_if, leb, ltb, ◌==◌,
  if◌then◌else◌,
}
use codex_window_reset.Base.Int.{ℤ, pos, negsuc, sub_ℕ, leb_ℤ, to_int64, ◌+ℤ◌}
use codex_window_reset.Domain.Clock.{Time, after, before, sub, minute}

pub record Interval : Type 0 where
  pub start : Time
  pub end : Time

abbrev pub is_real : Interval → Bool
is_real i = after i.end i.start

abbrev pub less : Interval → Interval → Bool
less i j = if i.start == j.start then before i.end j.end else before i.start j.start

unfoldable pub insert_sorted : Interval → List Interval → List Interval
insert_sorted i [] = i ∷ []
insert_sorted i (j ∷ js) =
    let rest = insert_sorted i js in if less j i then j ∷ rest else i ∷ j ∷ js

unfoldable pub sort : List Interval → List Interval
sort [] = []
sort (i ∷ is) = insert_sorted i (sort is)

-- The loop over the sorted intervals; `last` is merged[len(merged)-1].
abbrev pub extend : Interval → Interval → Interval
extend last i = if after i.end last.end then record last { end = i.end } else last

unfoldable pub merge_from : Interval → List Interval → List Interval
merge_from last [] = last ∷ []
merge_from last (i ∷ is) =
    let apart = after i.start last.end in
    let rest = merge_from (if apart then i else extend last i) is in
    if apart then last ∷ rest else rest

unfoldable pub merge_sorted : List Interval → List Interval
merge_sorted [] = []
merge_sorted (i ∷ is) = merge_from i is

unfoldable pub merge_intervals : List Interval → List Interval
merge_intervals is = merge_sorted (sort (keep_if is_real is))

unfoldable pub clip_interval : Time → Time → Interval → Interval
clip_interval lower upper i = record {
  start = if before i.start lower then lower else i.start;
  end = if after i.end upper then upper else i.end;
}

abbrev pub clip_each : Time → Time → List Interval → List Interval
clip_each lower upper [] = []
clip_each lower upper (i ∷ is) =
    let rest = clip_each lower upper is in
    let clipped = clip_interval lower upper i in if is_real clipped then clipped ∷ rest else rest

unfoldable pub clip_intervals : Time → Time → List Interval → List Interval
clip_intervals lower upper is = merge_intervals (clip_each lower upper is)

abbrev pub inside : Time → Interval → Bool
inside t i = not (before t i.start) && before t i.end

unfoldable pub contains_instant : List Interval → Time → Bool
contains_instant [] t = false
contains_instant (i ∷ is) t = inside t i || contains_instant is t

-- A sum of durations of 64 bits.
unfoldable pub total_duration : List Interval → ℤ
total_duration [] = pos 0
total_duration (i ∷ is) = to_int64 (sub i.end i.start +ℤ total_duration is)

-- The overlap of a window and a work period, when it is not empty.
abbrev pub overlap : Interval → Interval → Interval
overlap w p = record {
  start = if after p.start w.start then p.start else w.start;
  end = if before p.end w.end then p.end else w.end;
}

abbrev pub overlaps_of : Interval → List Interval → List Interval
overlaps_of w [] = []
overlaps_of w (p ∷ ps) =
    let rest = overlaps_of w ps in if is_real (overlap w p) then overlap w p ∷ rest else rest

abbrev pub intersections : List Interval → List Interval → List Interval
intersections [] work = []
intersections (w ∷ ws) work = join (overlaps_of w work) (intersections ws work)
  where
    join : List Interval → List Interval → List Interval
    join [] ys = ys
    join (x ∷ xs) ys = x ∷ join xs ys

unfoldable pub coverage_duration : List Interval → List Interval → ℤ
coverage_duration windows work = total_duration (merge_intervals (intersections windows work))
