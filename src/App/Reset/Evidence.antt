-- ===== src/App/Reset/Evidence.antt =====
-- Predicates on the stored audits of one idempotency key, and the changes of the repository under
-- them.
use codex_window_reset.Base.{
  ℕ, ◌≤◌, String, Bool, true, not, ◌||◌, List, [], ◌∷◌, ◌++◌, some, ◌≡◌, arith, All, any, leb,
  if◌then◌else◌, All-append, Bool-cases, inl, inr, some-injective, subst, zero, suc,
}
use codex_window_reset.Base.Text.{str_eq, eq_iff}
use codex_window_reset.Domain.Clock.{Time}
use codex_window_reset.Domain.Operation.{ResetAudit}
use codex_window_reset.Store.Audit.{replace_key, recover, same_key, expired, unexpired, find_key}

-- A record of another key, or one that was requested from `start` on.
abbrev pub is_young : String → Time → ResetAudit → Bool
is_young k start r = not (str_eq r.idempotency_key k) || leb start r.requested_at

abbrev pub Young : String → Time → List ResetAudit → Type 0
Young k start = All (λ r. is_young k start r ≡ true)

abbrev pub Has : String → List ResetAudit → Type 0
Has k rs = any (same_key k) rs ≡ true

abbrev pub Evident : String → Time → List ResetAudit → Type 0
Evident k start rs = Young k start rs × Has k rs

module _ (k : String) (start : Time) where
  pub Young-unexpired :
      (cutoff : Time) (rs : List ResetAudit)
      → Young k start rs
      → Young k start (unexpired cutoff rs)
  unfolding unexpired
  Young-unexpired cutoff [] y = tt
  Young-unexpired cutoff (r ∷ rs) y = ground (arith, Young-unexpired cutoff rs y.1)

  Has-unexpired :
      (cutoff : Time) (rs : List ResetAudit)
      → cutoff ≤ start
      → Young k start rs
      → Has k rs
      → Has k (unexpired cutoff rs)
  unfolding unexpired expired
  Has-unexpired cutoff [] c y h = h
  Has-unexpired cutoff (r ∷ rs) c y h = ground (arith, Has-unexpired cutoff rs c y.1)

  pub Evident-unexpired :
      (cutoff : Time) (rs : List ResetAudit)
      → cutoff ≤ start
      → Evident k start rs
      → Evident k start (unexpired cutoff rs)
  Evident-unexpired cutoff rs c (y, h) =
      (Young-unexpired cutoff rs y, Has-unexpired cutoff rs c y h)

  pub Young-append :
      (a : ResetAudit) (rs : List ResetAudit)
      → is_young k start a ≡ true
      → Young k start rs
      → Young k start (rs ++ a ∷ [])
  Young-append a rs e y = All-append (λ r. is_young k start r ≡ true) rs (a ∷ []) y (e, tt)

  pub Has-append : (a : ResetAudit) (rs : List ResetAudit) → Has k rs → Has k (rs ++ a ∷ [])
  Has-append a [] h = cc
  Has-append a (r ∷ rs) h = ground (arith, Has-append a rs)

  pub Has-appended :
      (a : ResetAudit) (rs : List ResetAudit)
      → str_eq a.idempotency_key k ≡ true
      → Has k (rs ++ a ∷ [])
  Has-appended a [] e = ground arith
  Has-appended a (r ∷ rs) e = ground (arith, Has-appended a rs e)

  pub Young-replace :
      (a : ResetAudit) (rs : List ResetAudit)
      → is_young k start a ≡ true
      → Young k start rs
      → Young k start (replace_key a rs)
  unfolding replace_key
  Young-replace a [] e y = tt
  Young-replace a (r ∷ rs) e y = ground (arith, Young-replace a rs e y.1)

  pub Has-replace : (a : ResetAudit) (rs : List ResetAudit) → Has k rs → Has k (replace_key a rs)
  unfolding replace_key
  Has-replace a [] h = h
  Has-replace a (r ∷ rs) h =
      ground (arith, Has-replace a rs, eq_iff r.idempotency_key a.idempotency_key)

  pub Young-recover :
      (at : Time) (rs : List ResetAudit) → Young k start rs → Young k start (recover at rs)
  unfolding recover
  Young-recover at [] y = tt
  Young-recover at (r ∷ rs) y = ground (arith, Young-recover at rs y.1)

  pub Has-recover : (at : Time) (rs : List ResetAudit) → Has k rs → Has k (recover at rs)
  unfolding recover
  Has-recover at [] h = h
  Has-recover at (r ∷ rs) h = ground (arith, Has-recover at rs)

  pub Young-found :
      (key : String) (rs : List ResetAudit) (a : ResetAudit)
      → Young k start rs
      → find_key key rs ≡ some a
      → is_young k start a ≡ true
  unfolding find_key
  Young-found key [] a y e = cc
  Young-found key (r ∷ rs) a y e = elim (Bool-cases (str_eq r.idempotency_key key)) [
    | inl same ↦
        let found : some r ≡ some a =
          subst (λ b. (if b then some r else find_key key rs) ≡ some a) same e in
        subst (λ x. is_young k start x ≡ true) (some-injective found) y.0
    | inr other ↦
        Young-found key rs a y.1
          (subst (λ b. (if b then some r else find_key key rs) ≡ some a) other e)
  ]

-- The evidence that `n` permissions to consume ask for: a record of the key, once there is one.
abbrev pub Level : String → Time → ℕ → List ResetAudit → Type 0
Level k start zero rs = Young k start rs
Level k start (suc n) rs = Evident k start rs

-- Fewer permissions ask for no more evidence.
pub Level-lower :
    (k : String) (start : Time) (m n : ℕ) (rs : List ResetAudit)
    → m ≤ n
    → Level k start n rs
    → Level k start m rs
Level-lower k start zero zero rs h l = l
Level-lower k start zero (suc n) rs h l = l.0
Level-lower k start (suc m) zero rs h l = absurd (omega (arith, h))
Level-lower k start (suc m) (suc n) rs h l = l

module _ (k : String) (start : Time) where
  pub Level-unexpired :
      (n : ℕ) (cutoff : Time) (rs : List ResetAudit)
      → cutoff ≤ start
      → Level k start n rs
      → Level k start n (unexpired cutoff rs)
  Level-unexpired zero cutoff rs c l = Young-unexpired k start cutoff rs l
  Level-unexpired (suc n) cutoff rs c l = Evident-unexpired k start cutoff rs c l

  pub Level-append :
      (n : ℕ) (a : ResetAudit) (rs : List ResetAudit)
      → is_young k start a ≡ true
      → Level k start n rs
      → Level k start n (rs ++ a ∷ [])
  Level-append zero a rs e l = Young-append k start a rs e l
  Level-append (suc n) a rs e l = (Young-append k start a rs e l.0, Has-append k start a rs l.1)

  pub Level-replace :
      (n : ℕ) (a : ResetAudit) (rs : List ResetAudit)
      → is_young k start a ≡ true
      → Level k start n rs
      → Level k start n (replace_key a rs)
  Level-replace zero a rs e l = Young-replace k start a rs e l
  Level-replace (suc n) a rs e l = (Young-replace k start a rs e l.0, Has-replace k start a rs l.1)

  pub Level-recover :
      (n : ℕ) (at : Time) (rs : List ResetAudit)
      → Level k start n rs
      → Level k start n (recover at rs)
  Level-recover zero at rs l = Young-recover k start at rs l
  Level-recover (suc n) at rs l = (Young-recover k start at rs l.0, Has-recover k start at rs l.1)

  pub Level-Young : (n : ℕ) (rs : List ResetAudit) → Level k start n rs → Young k start rs
  Level-Young zero rs l = l
  Level-Young (suc n) rs l = l.0
