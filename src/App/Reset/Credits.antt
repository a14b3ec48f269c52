-- ===== src/App/Reset/Credits.antt =====
-- The permissions to consume that the calls of a machine have together.
use codex_window_reset.Base.{
  ℕ, zero, suc, ◌+◌, String, List, [], ◌∷◌, ◌++◌, some, ◌≡◌, arith, All, get_elem?, some-injective,
  subst, ap,
}
use codex_window_reset.Domain.Clock.{Time}
use codex_window_reset.App.Reset.{Call}
use codex_window_reset.App.Reset.Machine.{set_call}
use codex_window_reset.App.Reset.Sound.{credit, Holding}

unfoldable pub credits : String → List Call → ℕ
credits k [] = 0
credits k (c ∷ cs) = credit k c.key c.phase + credits k cs

abbrev pub HeldBy : String → Time → Call → Type 0
HeldBy k start c = Holding k start c.key c.phase

pub credits-append :
    (k : String) (xs ys : List Call) → credits k (xs ++ ys) ≡ credits k xs + credits k ys
unfolding credits
credits-append k [] ys = omega arith
credits-append k (x ∷ xs) ys = omega (arith, credits-append k xs ys)

-- The permissions of the other calls.
pub others : String → ℕ → List Call → ℕ
others k i [] = 0
others k zero (x ∷ xs) = credits k xs
others k (suc i) (x ∷ xs) = credit k x.key x.phase + others k i xs

module _ (k : String) (start : Time) where
  pub credits-get :
      (i : ℕ) (calls : List Call) (c : Call)
      → get_elem? calls i ≡ some c
      → credits k calls ≡ others k i calls + credit k c.key c.phase
  unfolding credits others
  credits-get i [] c e = cc
  credits-get zero (x ∷ xs) c e =
      let same : x ≡ c = some-injective e in omega (arith, ap (λ y. credit k y.key y.phase) same)
  credits-get (suc i) (x ∷ xs) c e = omega (arith, credits-get i xs c e)

  pub credits-set :
      (i : ℕ) (calls : List Call) (c d : Call)
      → get_elem? calls i ≡ some c
      → credits k (set_call i d calls) ≡ others k i calls + credit k d.key d.phase
  unfolding credits others
  credits-set i [] c d e = cc
  credits-set zero (x ∷ xs) c d e = omega arith
  credits-set (suc i) (x ∷ xs) c d e = omega (arith, credits-set i xs c d e)

  pub held-get :
      (i : ℕ) (calls : List Call) (c : Call)
      → get_elem? calls i ≡ some c
      → All (HeldBy k start) calls
      → HeldBy k start c
  held-get i [] c e h = cc
  held-get zero (x ∷ xs) c e h = subst (HeldBy k start) (some-injective e) h.0
  held-get (suc i) (x ∷ xs) c e h = held-get i xs c e h.1

  pub held-set :
      (i : ℕ) (calls : List Call) (d : Call)
      → HeldBy k start d
      → All (HeldBy k start) calls
      → All (HeldBy k start) (set_call i d calls)
  held-set i [] d hd h = tt
  held-set zero (x ∷ xs) d hd h = (hd, h.1)
  held-set (suc i) (x ∷ xs) d hd h = (h.0, held-set i xs d hd h.1)
