-- ===== src/Schedule/LocalTime.antt =====
-- subtractBlackouts of internal/schedule/local_time.go, on the minutes of one local day.
pub mod Covered
use codex_window_reset.Base.{
  ℕ, Bool, true, false, List, [], ◌∷◌, ◌++◌, ◌&&◌, ltb, leb, if◌then◌else◌,
}

-- The minutes from `start` on, before `end`.
pub record WallInterval : Type 0 where
  pub start : ℕ
  pub end : ℕ

abbrev pub interval : ℕ → ℕ → WallInterval
interval a b = record { start = a; end = b }

-- What is left after the loop.
abbrev pub rest_of_base : ℕ → ℕ → List WallInterval
rest_of_base cursor limit = if ltb cursor limit then interval cursor limit ∷ [] else []

-- The minutes before a blackout, which begins before the base ends.
abbrev pub before_blackout : ℕ → ℕ → WallInterval → List WallInterval
before_blackout cursor limit b =
    let to = if ltb limit b.start then limit else b.start in
    if ltb cursor b.start && ltb cursor to then interval cursor to ∷ [] else []

-- The loop over the blackouts from the cursor on, and the end of the function.
unfoldable pub subtract_from : ℕ → ℕ → List WallInterval → List WallInterval
subtract_from cursor limit [] = rest_of_base cursor limit
subtract_from cursor limit (b ∷ bs) =
    let skipped = subtract_from cursor limit bs in
    let after = subtract_from b.end limit bs in
    if leb b.end cursor
    then skipped
    else if leb limit b.start
    then rest_of_base cursor limit
    else before_blackout cursor limit b ++ (if leb limit b.end then [] else after)

unfoldable pub subtract_blackouts : WallInterval → List WallInterval → List WallInterval
subtract_blackouts base blackouts = subtract_from base.start base.end blackouts
