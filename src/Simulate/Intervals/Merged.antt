-- ===== src/Simulate/Intervals/Merged.antt =====
-- What merging keeps, and the form that it gives.
use codex_window_reset.Base.{
  ◌≤◌, ◌<◌, Bool, false, ◌||◌, List, [], ◌∷◌, keep_if, ◌≡◌, refl, arith, Bool-cases, inl, inr, ◌∙◌,
}
use codex_window_reset.Domain.Clock.{Time, after}
use codex_window_reset.Simulate.Intervals.{
  Interval, is_real, less, insert_sorted, sort, extend, merge_from, merge_sorted, merge_intervals,
  inside, contains_instant,
}

-- Intervals that are not empty, in the order of their starts, the first not before `lower`.
abbrev pub Ascending : Time → List Interval → Type 0
Ascending lower [] = Unit
Ascending lower (i ∷ is) = (lower ≤ i.start) × (i.start < i.end) × Ascending i.start is

-- Intervals that are not empty, each after the end of the one before it with a gap between; the first
-- after `end`.
abbrev pub Apart : Time → List Interval → Type 0
Apart end [] = Unit
Apart end (i ∷ is) = (end < i.start) × (i.start < i.end) × Apart i.end is

abbrev pub Separated : List Interval → Type 0
Separated [] = Unit
Separated (i ∷ is) = (i.start < i.end) × Apart i.end is

kept-contains :
    (t : Time) (is : List Interval)
    → contains_instant (keep_if is_real is) t ≡ contains_instant is t
unfolding contains_instant
kept-contains t [] = refl
kept-contains t (i ∷ is) = ground (arith, kept-contains t is)

inserted-contains :
    (t : Time) (i : Interval) (js : List Interval)
    → contains_instant (insert_sorted i js) t ≡ (inside t i || contains_instant js t)
unfolding contains_instant insert_sorted
inserted-contains t i [] = refl
inserted-contains t i (j ∷ js) = ground (arith, inserted-contains t i js)

sorted-contains :
    (t : Time) (is : List Interval) → contains_instant (sort is) t ≡ contains_instant is t
unfolding contains_instant sort
sorted-contains t [] = refl
sorted-contains t (i ∷ is) = ground (arith, inserted-contains t i (sort is), sorted-contains t is)

inserted-Ascending :
    (lower : Time) (i : Interval) (js : List Interval)
    → lower ≤ i.start
    → i.start < i.end
    → Ascending lower js
    → Ascending lower (insert_sorted i js)
unfolding insert_sorted
inserted-Ascending lower i [] l r a = (l, r, tt)
inserted-Ascending lower i (j ∷ js) l r a = elim (Bool-cases (less j i)) [
  | inl first ↦ rw first (a.0, a.1, inserted-Ascending j.start i js (ground (arith, first)) r a.2)
  | inr later ↦ rw later (l, r, (ground (arith, later), a.1, a.2))
]

sorted-Ascending : (is : List Interval) → Ascending 0 (sort (keep_if is_real is))
unfolding sort
sorted-Ascending [] = tt
sorted-Ascending (i ∷ is) = elim (Bool-cases (is_real i)) [
  | inl real ↦ rw real (
      inserted-Ascending 0 i (sort (keep_if is_real is)) (omega arith) (ground (arith, real))
        (sorted-Ascending is))
  | inr empty ↦ rw empty (sorted-Ascending is)
]

lowered : (low high : Time) (is : List Interval) → low ≤ high → Ascending high is → Ascending low is
lowered low high [] h a = tt
lowered low high (i ∷ is) h a = (omega (arith, h, a.0), a.1, a.2)

extended-start : (last i : Interval) → (extend last i).start ≡ last.start
extended-start last i = ground arith

extended-real :
    (last i : Interval) → last.start < last.end → (extend last i).start < (extend last i).end
extended-real last i r = ground arith

extended-Ascending :
    (last i : Interval) (is : List Interval)
    → Ascending last.start (i ∷ is)
    → Ascending (extend last i).start is
extended-Ascending last i is a =
    lowered (extend last i).start i.start is (omega (arith, extended-start last i, a.0)) a.2

-- Two intervals that overlap or touch cover what the extended one covers.
extended-covers :
    (t : Time) (last i : Interval) (rest : Bool)
    → last.start < last.end
    → last.start ≤ i.start
    → i.start < i.end
    → after i.start last.end ≡ false
    → (inside t (extend last i) || rest) ≡ (inside t last || (inside t i || rest))
extended-covers t last i rest r l ri n = ground arith

merged-contains :
    (t : Time) (last : Interval) (is : List Interval)
    → last.start < last.end
    → Ascending last.start is
    → contains_instant (merge_from last is) t ≡ (inside t last || contains_instant is t)
unfolding contains_instant merge_from
merged-contains t last [] r a = refl
merged-contains t last (i ∷ is) r a = elim (Bool-cases (after i.start last.end)) [
  | inl apart ↦ rw apart (ground (arith, merged-contains t i is a.1 a.2))
  | inr near ↦ rw near (
      merged-contains t (extend last i) is (extended-real last i r) (extended-Ascending last i is a)
      ∙ extended-covers t last i (contains_instant is t) r a.0 a.1 near)
]

merged-Apart :
    (end : Time) (last : Interval) (is : List Interval)
    → end < last.start
    → last.start < last.end
    → Ascending last.start is
    → Apart end (merge_from last is)
unfolding merge_from
merged-Apart end last [] e r a = (e, r, tt)
merged-Apart end last (i ∷ is) e r a = elim (Bool-cases (after i.start last.end)) [
  | inl apart ↦ rw apart (e, r, merged-Apart last.end i is (ground (arith, apart)) a.1 a.2)
  | inr near ↦ rw near (
      merged-Apart end (extend last i) is (omega (arith, e, extended-start last i))
        (extended-real last i r) (extended-Ascending last i is a))
]

merged-Separated :
    (last : Interval) (is : List Interval)
    → last.start < last.end
    → Ascending last.start is
    → Separated (merge_from last is)
unfolding merge_from
merged-Separated last [] r a = (r, tt)
merged-Separated last (i ∷ is) r a = elim (Bool-cases (after i.start last.end)) [
  | inl apart ↦ rw apart (r, merged-Apart last.end i is (ground (arith, apart)) a.1 a.2)
  | inr near ↦ rw near (
      merged-Separated (extend last i) is (extended-real last i r) (extended-Ascending last i is a))
]

of_sorted :
    (t : Time) (is : List Interval)
    → Ascending 0 is
    → (contains_instant (merge_sorted is) t ≡ contains_instant is t) × Separated (merge_sorted is)
unfolding merge_sorted contains_instant
of_sorted t [] a = (refl, tt)
of_sorted t (i ∷ is) a = (merged-contains t i is a.1 a.2, merged-Separated i is a.1 a.2)

-- Merging keeps exactly the instants that some interval contains, and gives intervals that are not
-- empty, in order, with a gap between each two.
pub merge_intervals_lem :
    (t : Time) (is : List Interval)
    → (contains_instant (merge_intervals is) t ≡ contains_instant is t)
      × Separated (merge_intervals is)
unfolding merge_intervals
merge_intervals_lem t is =
    let sorted = sort (keep_if is_real is) in
    let m = of_sorted t sorted (sorted-Ascending is) in
    (m.0 ∙ sorted-contains t (keep_if is_real is) ∙ kept-contains t is, m.1)
