-- ===== src/App/Reset/Uuid.antt =====
-- canonicalResetUUID of internal/app/reset.go, as a list of character classes.
use Prim.Native.Char.{code}
use codex_window_reset.Base.{
  ℕ, suc, zero, String, Bool, true, false, ◌&&◌, ◌||◌, List, [], ◌∷◌, ◌++◌, leb, ◌==◌, ◌≡◌, refl,
}

pub data CharClass : Type 0 where
  hex dash version variant : CharClass

pub in_class : CharClass → ℕ → Bool
in_class CharClass.hex c = (leb 48 c && leb c 57) || (leb 97 c && leb c 102)
in_class CharClass.dash c = c == 45
in_class CharClass.version c = leb 49 c && leb c 53
in_class CharClass.variant c = (c == 56) || (c == 57) || (c == 97) || (c == 98)

pub hexes : ℕ → List CharClass
hexes zero = []
hexes (suc n) = CharClass.hex ∷ hexes n

pub pattern_of : List CharClass
unfolding hexes
pattern_of =
    hexes 8
    ++ CharClass.dash ∷ hexes 4
    ++ CharClass.dash ∷ CharClass.version ∷ hexes 3
    ++ CharClass.dash ∷ CharClass.variant ∷ hexes 3
    ++ CharClass.dash ∷ hexes 12

pub matches : List CharClass → String → Bool
unfolding in_class
matches [] String.[] = true
matches [] (String.◌∷◌ c s) = false
matches (k ∷ ks) String.[] = false
matches (k ∷ ks) (String.◌∷◌ c s) = let rest = matches ks s in in_class k (code c) && rest

unfoldable pub canonical_uuid : String → Bool
unfolding matches pattern_of
canonical_uuid key = matches pattern_of key

canonical_examples :
    (canonical_uuid "3f2504e0-4f89-41d3-9a0c-0305e82c3301" ≡ true)
    × (canonical_uuid "3F2504E0-4F89-41D3-9A0C-0305E82C3301" ≡ false)
    × (canonical_uuid "3f2504e0-4f89-61d3-9a0c-0305e82c3301" ≡ false)
unfolding canonical_uuid
canonical_examples = (refl, refl, refl)
