-- ===== src/Quota/Windows/Shortest.antt =====
-- What the two loops of shortestIndex compute.
use codex_window_reset.Base.{
  ℕ, suc, ◌+◌, true, false, ◌&&◌, List, [], ◌∷◌, Option, none, some, ◌≡◌, refl, ◌⊎◌, inl, inr,
  arith, get_elem?, Bool-cases, All,
}
use codex_window_reset.Base.Int.{◌≤ℤ◌}
use codex_window_reset.Domain.Snapshot.{UsageWindow}
use codex_window_reset.Quota.Windows.{
  Choice, shorter, mark, scan_marked, scan_all, choose, shortest,
}

-- The choice names a window of the list, whose head has index `i`.
abbrev pub Names : ℕ → List UsageWindow → Choice → Type 0
Names i ws c = (k : ℕ) × (c.0 ≡ i + k) × (get_elem? ws k ≡ some c.1)

abbrev pub AtMost : UsageWindow → UsageWindow → Type 0
AtMost v w = v.duration_minutes ≤ℤ w.duration_minutes

abbrev pub Marked : UsageWindow → Type 0
Marked w = w.short ≡ true

-- The shortest of the windows marked short; of all windows, if none is marked.
pub record IsShortest (ws : List UsageWindow) (c : Choice) : Type 0 where
  pub place : Names 0 ws c
  pub least :
      (Marked c.1 × All (λ w. Marked w → AtMost c.1 w) ws)
      ⊎ (All (λ w. w.short ≡ false) ws × All (AtMost c.1) ws)

Names-tail :
    (i : ℕ) (w : UsageWindow) (ws : List UsageWindow) (c : Choice)
    → Names (suc i) ws c
    → Names i (w ∷ ws) c
Names-tail i w ws c (k, e, g) = (suc k, omega arith, g)

record Least (i : ℕ) (ws : List UsageWindow) (from to : Choice) : Type 0 where
  place : (to ≡ from) ⊎ Names i ws to
  least : AtMost to.1 from.1
  below : All (AtMost to.1) ws

scan_all-Least : (i : ℕ) (c : Choice) (ws : List UsageWindow) → Least i ws c (scan_all i c ws)
unfolding scan_all
scan_all-Least i c [] = record { place = inl refl; least = omega arith; below = tt }
scan_all-Least i c (w ∷ ws) = elim (Bool-cases (shorter w c.1)) [
  | inl t ↦
      let l = scan_all-Least (suc i) (i, w) ws in
      rw t (record {
        place = elim l.place [
          | inl e ↦ inr (0, ground (arith, e), ground (arith, e))
          | inr n ↦ inr (Names-tail i w ws _ n)
        ];
        least = ground (arith, l.least);
        below = (l.least, l.below);
      })
  | inr f ↦
      let l = scan_all-Least (suc i) c ws in
      rw f (record {
        place = elim l.place [ inl e ↦ inl e | inr n ↦ inr (Names-tail i w ws _ n) ];
        least = l.least;
        below = (ground (arith, l.least), l.below);
      })
]

abbrev Best : ℕ → List UsageWindow → Option Choice → Option Choice → Type 0
Best i ws from none = (from ≡ none) × All (λ w. w.short ≡ false) ws
Best i ws from (some c) =
    ((from ≡ some c) ⊎ (Names i ws c × Marked c.1))
    × ((b : Choice) → from ≡ some b → AtMost c.1 b.1)
    × All (λ w. Marked w → AtMost c.1 w) ws

-- One round: from the result over the tail to the result over the list.
mark-Best :
    (i : ℕ) (w : UsageWindow) (ws : List UsageWindow) (from to : Option Choice)
    → Best (suc i) ws (mark i w from) to
    → Best i (w ∷ ws) from to
mark-Best i w ws none none (e, a) = ground arith
mark-Best i w ws (some b) none (e, a) = ground arith
mark-Best i w ws none (some c) (p, l, a) = elim (Bool-cases w.short) [
  | inl t ↦ (
    elim p [
      | inl e ↦ inr ((0, ground arith, ground arith), ground arith)
      | inr (n, m) ↦ inr (Names-tail i w ws c n, m)
    ],
    (λ b e. cc),
    ((λ m. l (i, w) (ground arith)), a),
  )
  | inr f ↦ (
    elim p [ inl e ↦ absurd (ground arith) | inr (n, m) ↦ inr (Names-tail i w ws c n, m) ],
    (λ b e. cc),
    ((λ m. absurd (ground arith)), a),
  )
]
mark-Best i w ws (some b) (some c) (p, l, a) = elim (Bool-cases (w.short && shorter w b.1)) [
  | inl t ↦ (
    elim p [
      | inl e ↦ inr ((0, ground arith, ground arith), ground arith)
      | inr (n, m) ↦ inr (Names-tail i w ws c n, m)
    ],
    (λ b' e. ground (arith, l (i, w))),
    ((λ m. l (i, w) (ground arith)), a),
  )
  | inr f ↦ (
    elim p [ inl e ↦ inl (ground arith) | inr (n, m) ↦ inr (Names-tail i w ws c n, m) ],
    (λ b' e. ground (arith, l b')),
    ((λ m. ground (arith, l b)), a),
  )
]

scan_marked-Best :
    (i : ℕ) (from : Option Choice) (ws : List UsageWindow) → Best i ws from (scan_marked i from ws)
unfolding scan_marked
scan_marked-Best i none [] = (refl, tt)
scan_marked-Best i (some c) [] = (inl refl, (λ b e. ground arith), tt)
scan_marked-Best i from (w ∷ ws) =
    mark-Best i w ws from (scan_marked (suc i) (mark i w from) ws)
      (scan_marked-Best (suc i) (mark i w from) ws)

choose-IsShortest :
    (w : UsageWindow) (ws : List UsageWindow) (marked : Option Choice)
    → Best 0 (w ∷ ws) none marked
    → IsShortest (w ∷ ws) (choose ws (0, w) marked)
choose-IsShortest w ws (some c) (p, l, a) = elim p [
  | inl e ↦ absurd (ground arith)
  | inr (n, m) ↦ record { place = n; least = inl (m, a) }
]
choose-IsShortest w ws none (e, a) =
    let l = scan_all-Least 1 (0, w) ws in
    record {
      place = elim l.place [
        | inl e ↦ (0, ground (arith, e), ground (arith, e))
        | inr n ↦ Names-tail 0 w ws _ n
      ];
      least = inr (a, (l.least, l.below));
    }

-- shortestIndex answers for every non-empty list of windows, and what it names is a window of the
-- list: among the windows marked short one of least duration, or, if none is marked, a window of
-- least duration of all.
pub shortest-IsShortest :
    (w : UsageWindow) (ws : List UsageWindow)
    → (c : Choice) × (shortest (w ∷ ws) ≡ some c) × IsShortest (w ∷ ws) c
unfolding shortest
shortest-IsShortest w ws = (
  choose ws (0, w) (scan_marked 0 none (w ∷ ws)),
  refl,
  choose-IsShortest w ws _ (scan_marked-Best 0 none (w ∷ ws)),
)
