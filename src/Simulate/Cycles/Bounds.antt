-- ===== src/Simulate/Cycles/Bounds.antt =====
-- How much the cycles make available, and how many rounds the loop over them takes.
use codex_window_reset.Base.{
  ℕ, zero, suc, ◌+◌, ◌-◌, ◌≤◌, ◌<◌, Bool, true, false, ◌||◌, List, [], ◌∷◌, ◌++◌, ◌≡◌, refl, arith,
  Bool-cases, inl, inr, ◌∙◌, sym, ap, subst, if◌then◌else◌,
}
use codex_window_reset.Base.Int.{ℤ, pos, pos_part}
use codex_window_reset.Domain.Clock.{Time, is_zero, before}
use codex_window_reset.Simulate.Intervals.{
  Interval, clip_interval, merge_intervals, inside, contains_instant,
}
use codex_window_reset.Simulate.Intervals.Merged.{merge_intervals_lem}
use codex_window_reset.Simulate.Cycles.{
  lesser, spend, last_end, Cycles, window_at, is_nil, cycles, cycle_availability,
}

-- The length of intervals together.
unfoldable pub total_length : List Interval → ℕ
total_length [] = 0
total_length (i ∷ is) = i.end - i.start + total_length is

-- The length of the work within a window.
unfoldable pub overlap_length : Interval → List Interval → ℕ
overlap_length window [] = 0
overlap_length window (p ∷ ps) =
    let o = clip_interval window.start window.end p in o.end - o.start + overlap_length window ps

-- One window gives out the length of the work within it, up to its budget, and nothing of a budget
-- that is negative.
pub spend-total_length :
    (window : Interval) (remaining : ℤ) (work : List Interval)
    → total_length (spend window remaining work)
      ≡ lesser (overlap_length window work) (pos_part remaining)
unfolding total_length overlap_length spend
spend-total_length window remaining [] = ground arith
spend-total_length window remaining (p ∷ ps) =
    let o = clip_interval window.start window.end p in
    let used = lesser (o.end - o.start) (pos_part remaining) in
    ground (
      arith,
      spend-total_length window remaining ps,
      spend-total_length window (pos (pos_part remaining - used)) ps,
    )

clipped-inside :
    (t : Time) (lower upper : Time) (p : Interval)
    → inside t (clip_interval lower upper p) ≡ true
    → inside t p ≡ true
unfolding clip_interval
clipped-inside t lower upper p h = ground arith

-- What is given out lies within the work.
spend-contains :
    (t : Time) (window : Interval) (remaining : ℤ) (work : List Interval)
    → contains_instant (spend window remaining work) t ≡ true
    → contains_instant work t ≡ true
unfolding contains_instant spend
spend-contains t window remaining [] h = h
spend-contains t window remaining (p ∷ ps) h =
    let o = clip_interval window.start window.end p in
    let used = lesser (o.end - o.start) (pos_part remaining) in
    ground (
      arith,
      spend-contains t window remaining ps,
      spend-contains t window (pos (pos_part remaining - used)) ps,
      clipped-inside t window.start window.end p,
    )

append-contains :
    (t : Time) (xs ys : List Interval)
    → contains_instant (xs ++ ys) t ≡ (contains_instant xs t || contains_instant ys t)
unfolding contains_instant
append-contains t [] ys = refl
append-contains t (x ∷ xs) ys = ground (arith, append-contains t xs ys)

nothing : (t : Time) → contains_instant [] t ≡ true → ⊥
unfolding contains_instant
nothing t e = cc

module _ (work : List Interval) (cycle : ℕ) (budget : ℤ) (day_start day_end : Time) where
  abbrev round : Bool → Cycles → Cycles
  round false x = ([], [])
  round true x = x

  abbrev next : ℕ → Time → Cycles
  next fuel start =
      let rest = cycles work cycle budget day_start day_end fuel (start + cycle) in
      let window = window_at work cycle budget day_start day_end start in
      (spend window budget work ++ rest.0, window ∷ rest.1)

  cycles-suc :
      (fuel : ℕ) (start : Time)
      → cycles work cycle budget day_start day_end (suc fuel) start
        ≡ round (before start (last_end work)) (next fuel start)
  unfolding cycles
  cycles-suc fuel start = elim (Bool-cases (before start (last_end work))) [
    | inl more ↦ rw (more, cycles) refl
    | inr over ↦ rw (over, cycles) refl
  ]

  round-contains :
      (t : Time) (b : Bool) (x : Cycles)
      → contains_instant (round b x).0 t ≡ true
      → contains_instant x.0 t ≡ true
  unfolding contains_instant
  round-contains t true x h = h
  round-contains t false x h = cc

  cycles-contains :
      (t : Time) (fuel : ℕ) (start : Time)
      → contains_instant (cycles work cycle budget day_start day_end fuel start).0 t ≡ true
      → contains_instant work t ≡ true
  unfolding cycles contains_instant
  cycles-contains t zero start h = cc
  cycles-contains t (suc fuel) start h =
      let window = window_at work cycle budget day_start day_end start in
      let rest = cycles work cycle budget day_start day_end fuel (start + cycle) in
      let inner : contains_instant (next fuel start).0 t ≡ true =
        round-contains t (before start (last_end work)) (next fuel start)
          (subst (λ x. contains_instant x.0 t ≡ true) (cycles-suc fuel start) h) in
      of_either (contains_instant (spend window budget work) t) (contains_instant rest.0 t)
        (sym (append-contains t (spend window budget work) rest.0) ∙ inner)
        (spend-contains t window budget work) (cycles-contains t fuel (start + cycle))
    where
      of_either :
          (a b : Bool)
          → (a || b) ≡ true
          → (a ≡ true → contains_instant work t ≡ true)
          → (b ≡ true → contains_instant work t ≡ true)
          → contains_instant work t ≡ true
      of_either true b e ha hb = ha refl
      of_either false b e ha hb = hb e

  -- Every instant that cycleAvailability counts as available is one of work, whatever the budget.
  pub cycle_availability_in_work :
      (t : Time) (anchor : Time)
      → contains_instant (cycle_availability work cycle budget day_start day_end anchor).0 t ≡ true
      → contains_instant work t ≡ true
  unfolding cycle_availability
  cycle_availability_in_work t anchor h = of_test (is_nil work || is_zero anchor) h
    where
      found : Cycles
      found = cycles work cycle budget day_start day_end (last_end work - anchor) anchor

      chosen : Bool → Cycles
      chosen b = if b then ([], []) else (merge_intervals found.0, merge_intervals found.1)

      of_test : (b : Bool) → contains_instant (chosen b).0 t ≡ true → contains_instant work t ≡ true
      of_test true e = absurd (nothing t e)
      of_test false e =
          cycles-contains t (last_end work - anchor) anchor
            (sym (merge_intervals_lem t found.0).0 ∙ e)

  ended_round :
      (fuel : ℕ) (start : Time)
      → last_end work ≤ start
      → cycles work cycle budget day_start day_end fuel start ≡ ([], [])
  unfolding cycles
  ended_round zero start h = refl
  ended_round (suc fuel) start h =
      let over : before start (last_end work) ≡ false = ground (arith, h) in
      cycles-suc fuel start ∙ ap (λ b. round b (next fuel start)) over

  -- The loop over the cycles ends by its own test: any number of rounds that reaches from the start to
  -- the end of the work, a nanosecond a round, gives the same cycles. A cycle is not empty.
  pub cycles_end :
      (rounds more : ℕ) (start : Time)
      → 0 < cycle
      → last_end work ≤ start + rounds
      → last_end work ≤ start + more
      → cycles work cycle budget day_start day_end rounds start
        ≡ cycles work cycle budget day_start day_end more start
  cycles_end zero more start c h k =
      ended_round zero start (omega (arith, h)) ∙ sym (ended_round more start (omega (arith, h)))
  cycles_end (suc rounds) zero start c h k =
      ended_round (suc rounds) start (omega (arith, k))
      ∙ sym (ended_round zero start (omega (arith, k)))
  cycles_end (suc rounds) (suc more) start c h k =
      let same =
        cycles_end rounds more (start + cycle) c (omega (arith, h, c)) (omega (arith, k, c)) in
      let window = window_at work cycle budget day_start day_end start in
      cycles-suc rounds start
      ∙ ap
          (λ x.
            round (before start (last_end work)) (spend window budget work ++ x.0, window ∷ x.1))
          same
      ∙ sym (cycles-suc more start)
