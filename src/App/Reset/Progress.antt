-- ===== src/App/Reset/Progress.antt =====
-- How a call of ResetQuota that owns a flight closes it, and what that leaves for its waiters.
use codex_window_reset.Base.{
  ℕ, suc, ◌≤◌, true, List, [], ◌∷◌, ◌++◌, some, ◌≡◌, get_elem?, if◌then◌else◌, ◌==◌,
}
use codex_window_reset.App.Reset.{Phase, Call, Flight, Answers}
use codex_window_reset.App.Reset.Steps.{move}
use codex_window_reset.App.Reset.Owned.{OwnedBy, is_done, Released}
use codex_window_reset.App.Reset.Owners.{Kept}
use codex_window_reset.App.Reset.Machine.{Event, Machine, run}

-- How often the call at place i moves.
unfoldable pub steps_of : ℕ → List Event → ℕ
steps_of i [] = 0
steps_of i (Event.steps j a ∷ es) = let rest = steps_of i es in if j == i then suc rest else rest
steps_of i (e ∷ es) = steps_of i es

abbrev pub GoesOn : Event → Type 0
GoesOn Event.restarts = ⊥
GoesOn _ = Unit

-- At a moment of the run the call at place i has its reply, its flight n is closed with it, and the
-- account of the flight is free.
abbrev pub Closes : ℕ → Machine → List Event → ℕ → Call → ℕ → Call → Answers → Type 0
Closes retention m es i c n waiter a =
    (first : List Event) × (rest : List Event) × (es ≡ first ++ rest)
    × (f : Flight) × (f.number ≡ n)
    × (phase : Phase) × (get_elem? (run retention first m).calls i
        ≡ some (record c { phase = phase }))
    × Released retention c n f (phase, (run retention first m).shared)
    × (is_done (move retention a waiter (Phase.waiting n) (run retention first m).shared).0 ≡ true)

module _ (retention : ℕ) (i : ℕ) (n : ℕ) (waiter : Call) (answer : Answers) where
  abbrev Rest : List Event → Type 0
  Rest es =
      (k : ℕ) (m : Machine) (c : Call)
      → Kept m.calls m.shared
      → get_elem? m.calls i ≡ some c
      → OwnedBy n k c.phase
      → k ≤ steps_of i es
      → Closes retention m es i c n waiter answer
