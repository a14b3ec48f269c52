-- ===== src/Quota/Windows.antt =====
-- shortestIndex and the tests on long windows, of internal/quota/service.go (the copy in
-- internal/app/preheat.go, shortestWindowIndex, is the same text).
pub mod Shortest
use codex_window_reset.Base.{
  ℕ, zero, suc, ◌+◌, ◌≤◌, ◌<◌, Bool, true, false, not, ◌&&◌, List, [], ◌∷◌, Option, none, some, ◌≡◌,
  ◌≢◌, refl, ◌⊎◌, inl, inr, arith, ltb, ◌==◌, if◌then◌else◌, length, get_elem?, Bool-cases,
  Option-cases, All, any,
}
use codex_window_reset.Base.Int.{ℤ, ltb_ℤ, leb_ℤ, ◌≤ℤ◌}
use codex_window_reset.Domain.Snapshot.{UsageWindow, UsageSnapshot}

-- An index of the slice with the window that it names.
abbrev pub Choice : Type 0
Choice = ℕ × UsageWindow

abbrev pub shorter : UsageWindow → UsageWindow → Bool
shorter w v = ltb_ℤ w.duration_minutes v.duration_minutes

-- The loop over the marked windows; `none` is `marked == -1`.
abbrev pub mark : ℕ → UsageWindow → Option Choice → Option Choice
mark i w none = if w.short then some (i, w) else none
mark i w (some (j, v)) = if w.short && shorter w v then some (i, w) else some (j, v)

unfoldable pub scan_marked : ℕ → Option Choice → List UsageWindow → Option Choice
scan_marked i marked [] = marked
scan_marked i marked (w ∷ ws) = scan_marked (suc i) (mark i w marked) ws

-- The loop over all windows, from the second on.
abbrev pub take_shorter : ℕ → UsageWindow → Choice → Choice
take_shorter i w (j, v) = if shorter w v then (i, w) else (j, v)

unfoldable pub scan_all : ℕ → Choice → List UsageWindow → Choice
scan_all i best [] = best
scan_all i best (w ∷ ws) = scan_all (suc i) (take_shorter i w best) ws

abbrev choose : List UsageWindow → Choice → Option Choice → Choice
choose rest first none = scan_all 1 first rest
choose rest first (some c) = c

-- shortestIndex with shortestWindow.
unfoldable pub shortest : List UsageWindow → Option Choice
shortest [] = none
shortest (w ∷ ws) = some (choose ws (0, w) (scan_marked 0 none (w ∷ ws)))

unfoldable pub shortest_index : List UsageWindow → Option ℕ
shortest_index ws = elim (shortest ws) [ none ↦ none | some (i, w) ↦ some i ]

unfoldable pub shortest_window : List UsageWindow → Option UsageWindow
shortest_window ws = elim (shortest ws) [ none ↦ none | some (i, w) ↦ some w ]

-- `index != shortIndex && window.RemainingPercent <= floor`, for some window.
unfoldable pub low_from : ℕ → ℕ → ℤ → List UsageWindow → Bool
low_from i short floor [] = false
low_from i short floor (w ∷ ws) =
    let rest = low_from (suc i) short floor ws in
    if not (i == short) && leb_ℤ w.remaining_percent floor then true else rest

abbrev low_unless : Option ℕ → ℤ → List UsageWindow → Bool
low_unless none floor ws = false
low_unless (some i) floor ws = low_from 0 i floor ws

unfoldable pub any_long_at_or_below : UsageSnapshot → ℤ → Bool
any_long_at_or_below s floor = low_unless (shortest_index s.windows) floor s.windows

abbrev above_unless : Option ℕ → ℤ → List UsageWindow → Bool
above_unless none floor ws = false
above_unless (some i) floor ws = if ltb (length ws) 2 then false else not (low_from 0 i floor ws)

unfoldable pub all_long_above : UsageSnapshot → ℤ → Bool
all_long_above s floor = above_unless (shortest_index s.windows) floor s.windows

unfoldable pub has_long_window : List UsageWindow → Bool
has_long_window ws = elim (shortest_index ws) [ none ↦ false | some i ↦ not (ltb (length ws) 2) ]

-- With a long window the two tests on the long windows are opposite.
pub all_long_above-not :
    (s : UsageSnapshot) (floor : ℤ)
    → has_long_window s.windows ≡ true
    → all_long_above s floor ≡ not (any_long_at_or_below s floor)
unfolding has_long_window all_long_above any_long_at_or_below
all_long_above-not s floor h = ground arith

-- A list of one window has no long one, so none is low.
low_from-shortest :
    (floor : ℤ) (ws : List UsageWindow)
    → has_long_window ws ≡ false
    → low_unless (shortest_index ws) floor ws ≡ false
unfolding has_long_window low_from shortest_index shortest scan_marked scan_all
low_from-shortest floor [] h = refl
low_from-shortest floor (w ∷ []) h = ground arith
low_from-shortest floor (w ∷ v ∷ ws) h = absurd (ground arith)

pub no_long_window :
    (s : UsageSnapshot) (floor : ℤ)
    → has_long_window s.windows ≡ false
    → any_long_at_or_below s floor ≡ false
unfolding any_long_at_or_below
no_long_window s floor h = low_from-shortest floor s.windows h
