-- ===== src/Base/Text.antt =====
-- What the program uses of Go's `strings` package: equality, `TrimSpace` and `TrimPrefix`.
use Prim.Native.Nat.{ℕ}
use Prim.Native.Char.{code}
use Prim.Native.String.{String}
use mathlib.Core.Path.{◌≡◌, refl}
use mathlib.Core.Bool.{Bool, true, false, ◌&&◌, ◌||◌}
use mathlib.Core.Option.{Option, none, some}
use codex_window_reset.Base.Tests.{leb, ◌==◌, if◌then◌else◌}
pub use Prim.Native.String.{◌++◌ as str_append}
pub use text.Mathlib.Text.{◌==◌ as str_eq}
pub use text.Mathlib.TextEquality.{eq_iff}

abbrev pub is_empty : String → Bool
is_empty String.[] = true
is_empty (String.◌∷◌ c s) = false

-- unicode.IsSpace
is_space : ℕ → Bool
is_space c =
    (leb 9 c && leb c 13)
    || (c == 32)
    || (c == 0x85)
    || (c == 0xa0)
    || (c == 0x1680)
    || (leb 0x2000 c && leb c 0x200a)
    || (c == 0x2028)
    || (c == 0x2029)
    || (c == 0x202f)
    || (c == 0x205f)
    || (c == 0x3000)

trim_left : String → String
trim_left String.[] = String.[]
trim_left (String.◌∷◌ c s) =
    let rest = trim_left s in if is_space (code c) then rest else String.◌∷◌ c s

trim_right : String → String
trim_right String.[] = String.[]
trim_right (String.◌∷◌ c s) =
    let rest = trim_right s in
    if is_space (code c) && is_empty rest then String.[] else String.◌∷◌ c rest

-- strings.TrimSpace
unfoldable pub trim_space : String → String
unfolding trim_left trim_right is_space
trim_space s = trim_right (trim_left s)

strip : String → String → Option String
strip String.[] s = some s
strip (String.◌∷◌ a p) String.[] = none
strip (String.◌∷◌ a p) (String.◌∷◌ c s) =
    let rest = strip p s in if code a == code c then rest else none

-- strings.TrimPrefix
unfoldable pub trim_prefix : String → String → String
unfolding strip
trim_prefix s p = elim (strip p s) [ none ↦ s | some rest ↦ rest ]

trim_both : trim_space "  a b " ≡ "a b"
unfolding trim_space
trim_both = refl
