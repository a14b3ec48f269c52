-- ===== src/Schedule/LocalTime/Covered.antt =====
-- What subtractBlackouts leaves covers exactly the allowed minutes.
use codex_window_reset.Base.{
  ℕ, ◌≤◌, ◌<◌, Bool, true, false, not, ◌&&◌, ◌||◌, List, [], ◌∷◌, ◌++◌, ◌≡◌, refl, inl, inr, arith,
  ltb, leb, All, Bool-cases, ap, ◌∙◌,
}
use codex_window_reset.Schedule.LocalTime.{
  WallInterval, rest_of_base, before_blackout, subtract_from, subtract_blackouts,
}

abbrev pub contains : ℕ → WallInterval → Bool
contains m i = leb i.start m && ltb m i.end

unfoldable pub covers : ℕ → List WallInterval → Bool
covers m [] = false
covers m (i ∷ is) = contains m i || covers m is

covers-append :
    (m : ℕ) (xs ys : List WallInterval) → covers m (xs ++ ys) ≡ (covers m xs || covers m ys)
unfolding covers
covers-append m [] ys = refl
covers-append m (x ∷ xs) ys = ground (arith, covers-append m xs ys)

abbrev pub From : ℕ → List WallInterval → Type 0
From lo = All (λ b. lo ≤ b.start)

-- The blackouts are sorted by their start.
abbrev pub Sorted : List WallInterval → Type 0
Sorted [] = Unit
Sorted (b ∷ bs) = From b.start bs × Sorted bs

-- No minute before the first start is covered.
covers-From : (m lo : ℕ) (bs : List WallInterval) → From lo bs → m < lo → covers m bs ≡ false
unfolding covers
covers-From m lo [] f h = refl
covers-From m lo (b ∷ bs) (f, fs) h = ground (arith, covers-From m lo bs fs h)

covers-rest :
    (m cursor limit : ℕ) → covers m (rest_of_base cursor limit) ≡ (leb cursor m && ltb m limit)
unfolding covers
covers-rest m cursor limit = ground arith

covers-before :
    (m cursor limit : ℕ) (b : WallInterval)
    → b.start < limit
    → covers m (before_blackout cursor limit b) ≡ (leb cursor m && ltb m b.start)
unfolding covers
covers-before m cursor limit b h = ground arith

covers-early : (m lo : ℕ) (bs : List WallInterval) → From lo bs → (ltb m lo && covers m bs) ≡ false
covers-early m lo bs f = elim (Bool-cases (ltb m lo)) [
  | inl t ↦ rw t (covers-From m lo bs f (ground arith))
  | inr n ↦ rw n
]

-- One round, on a minute `m`, a blackout from `b` to `e`, and whether a later one covers the minute.
module _ (m cursor limit b e : ℕ) (r : Bool) (early : (ltb m b && r) ≡ false) where
  round_skipped :
      leb e cursor ≡ true
      → (leb cursor m && ltb m limit && not r)
        ≡ (leb cursor m && ltb m limit && not ((leb b m && ltb m e) || r))
  round_skipped h = ground (arith, early)

  round_late :
      leb limit b ≡ true
      → (leb cursor m && ltb m limit)
        ≡ (leb cursor m && ltb m limit && not ((leb b m && ltb m e) || r))
  round_late h = ground (arith, early)

  round_last :
      leb e cursor ≡ false
      → leb limit b ≡ false
      → leb limit e ≡ true
      → ((leb cursor m && ltb m b) || false)
        ≡ (leb cursor m && ltb m limit && not ((leb b m && ltb m e) || r))
  round_last n g h = ground (arith, early)

  round_split :
      leb e cursor ≡ false
      → leb limit b ≡ false
      → leb limit e ≡ false
      → ((leb cursor m && ltb m b) || (leb e m && ltb m limit && not r))
        ≡ (leb cursor m && ltb m limit && not ((leb b m && ltb m e) || r))
  round_split n g h = ground (arith, early)

covers-subtract_from :
    (m cursor limit : ℕ) (bs : List WallInterval)
    → Sorted bs
    → covers m (subtract_from cursor limit bs) ≡ (leb cursor m && ltb m limit && not (covers m bs))
unfolding subtract_from covers
covers-subtract_from m cursor limit [] s = ground (arith, covers-rest m cursor limit)
covers-subtract_from m cursor limit (b ∷ bs) (f, s) =
    let r = covers m bs in
    let early = covers-early m b.start bs f in
    elim (Bool-cases (leb b.end cursor)) [
      | inl t ↦ rw t (
          covers-subtract_from m cursor limit bs s
          ∙ round_skipped m cursor limit b.start b.end r early t)
      | inr n ↦ elim (Bool-cases (leb limit b.start)) [
        | inl t ↦
            rw (n, t)
              (covers-rest m cursor limit ∙ round_late m cursor limit b.start b.end r early t)
        | inr g ↦
            let before = covers-before m cursor limit b (ground (arith, g)) in
            let xs = before_blackout cursor limit b in
            elim (Bool-cases (leb limit b.end)) [
              | inl t ↦
                  rw (n, g, t)
                    (covers-append m xs []
                      ∙ ap (λ x. x || false) before
                      ∙ round_last m cursor limit b.start b.end r early n g t)
              | inr k ↦
                  let after = covers-subtract_from m b.end limit bs s in
                  rw (n, g, k)
                    (covers-append m xs (subtract_from b.end limit bs)
                      ∙ rw (before, after) (round_split m cursor limit b.start b.end r early n g k))
            ]
      ]
    ]

-- For blackouts that are sorted by their start, what is left of a base interval covers exactly the
-- minutes of the base that no blackout covers.
pub subtract_blackouts_lem :
    (m : ℕ) (base : WallInterval) (blackouts : List WallInterval)
    → Sorted blackouts
    → covers m (subtract_blackouts base blackouts) ≡ (contains m base && not (covers m blackouts))
unfolding subtract_blackouts
subtract_blackouts_lem m base blackouts s =
    covers-subtract_from m base.start base.end blackouts s ∙ ground arith
