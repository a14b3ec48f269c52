-- ===== src/Base/Assoc.antt =====
-- Go's `map[string]V` as an association list with at most one live entry for a key: a lookup takes
-- the first, a delete removes all. The program never depends on the order of iteration.
use Prim.Native.String.{String}
use mathlib.Core.Path.{◌≡◌, refl, ap}
use mathlib.Core.Bool.{Bool, true, not}
use mathlib.Core.Logic.{inl, inr}
use mathlib.Core.Option
use mathlib.Core.Option.{Option, none, some}
use mathlib.Core.List.{List, [], ◌∷◌}
use native.Mathlib.Omega.{arith}
use codex_window_reset.Base.Tests.{if◌then◌else◌, Bool-cases, is_none}
use codex_window_reset.Base.Text.{str_eq, eq_iff}

abbrev pub Assoc {ℓ} : Type ℓ → Type ℓ
Assoc V = List (String × V)

module _ {ℓ} {V : Type ℓ} where
  -- v, ok := m[k]
  unfoldable pub lookup : String → Assoc V → Option V
  lookup k [] = none
  lookup k ((j, v) ∷ m) = if str_eq j k then some v else lookup k m

  -- delete(m, k)
  unfoldable pub delete : String → Assoc V → Assoc V
  delete k [] = []
  delete k ((j, v) ∷ m) = let rest = delete k m in if str_eq j k then rest else (j, v) ∷ rest

  -- m[k] = v
  unfoldable pub insert : String → V → Assoc V → Assoc V
  insert k v m = (k, v) ∷ delete k m

  pub lookup-delete :
      (k j : String) (m : Assoc V)
      → lookup j (delete k m) ≡ (if str_eq k j then none else lookup j m)
  unfolding lookup delete
  lookup-delete k j [] = ground arith
  lookup-delete k j ((i, v) ∷ m) =
      ground (arith, lookup-delete k j m, eq_iff i k, eq_iff i j, eq_iff k j)

  pub lookup-insert :
      (k j : String) (v : V) (m : Assoc V)
      → lookup j (insert k v m) ≡ (if str_eq k j then some v else lookup j m)
  unfolding lookup insert
  lookup-insert k j v m = ground (arith, lookup-delete k j m)

  -- A loop over a map that rewrites each entry, and one that deletes the keys that fail a test.
  unfoldable pub map_entries : (String → V → V) → Assoc V → Assoc V
  map_entries f [] = []
  map_entries f ((k, v) ∷ m) = (k, f k v) ∷ map_entries f m

  unfoldable pub keep_keys : (String → Bool) → Assoc V → Assoc V
  keep_keys p [] = []
  keep_keys p ((k, v) ∷ m) = let rest = keep_keys p m in if p k then (k, v) ∷ rest else rest

  unfoldable pub has_key : String → Assoc V → Bool
  has_key k m = not (is_none (lookup k m))

  pub lookup-map_entries :
      (f : String → V → V) (k : String) (m : Assoc V)
      → lookup k (map_entries f m) ≡ Option.map (f k) (lookup k m)
  unfolding lookup map_entries
  lookup-map_entries f k [] = refl
  lookup-map_entries f k ((j, v) ∷ m) = elim (Bool-cases (str_eq j k)) [
    | inl e ↦ let same : j ≡ k = (eq_iff j k).0 e in rw (e, same)
    | inr n ↦ rw n (lookup-map_entries f k m)
  ]

  pub lookup-keep_keys :
      (p : String → Bool) (k : String) (m : Assoc V)
      → lookup k (keep_keys p m) ≡ (if p k then lookup k m else none)
  unfolding lookup keep_keys
  lookup-keep_keys p k [] = ground arith
  lookup-keep_keys p k ((j, v) ∷ m) = elim (Bool-cases (str_eq j k)) [
    | inl e ↦
        let same : j ≡ k = (eq_iff j k).0 e in ground (arith, lookup-keep_keys p k m, ap p same)
    | inr n ↦ ground (arith, lookup-keep_keys p k m)
  ]

  pub has_key-insert : (k : String) (v : V) (m : Assoc V) → has_key k (insert k v m) ≡ true
  unfolding has_key
  has_key-insert k v m = ground (arith, lookup-insert k k v m, eq_iff k k)
