-- ===== src/Text.antt =====
-- Go strings as sequences of bytes, and the functions of package strings that only compare bytes.
pub mod Laws
pub mod Case
pub mod Space
pub mod Decimal
use mathlib.Core.Option
use Prim.Native.Char.{code}
use Prim.Native.String.{String}
use leasewebassignment.Base.{
  ℕ, Bool, true, false, not, ◌&&◌, ◌||◌, List, [], ◌∷◌, ◌++◌, reverse, Option, none, some, ◌==◌,
  if◌then◌else◌, keep, any,
}

abbrev pub Bytes : Type 0
Bytes = List ℕ

-- The bytes of an ASCII literal.
abbrev pub codes : String → Bytes
codes String.[] = []
codes (String.◌∷◌ c s) = code c ∷ codes s

-- `a == b`
unfoldable pub same : Bytes → Bytes → Bool
same [] [] = true
same (x ∷ xs) (y ∷ ys) = x == y && same xs ys
same _ _ = false

abbrev pub is_empty {ℓ} : {A : Type ℓ} → List A → Bool
is_empty [] = true
is_empty (_ ∷ _) = false

abbrev pub is_some {ℓ} : {A : Type ℓ} → Option A → Bool
is_some none = false
is_some (some _) = true

-- `strings.CutPrefix(s, prefix)`, `none` for `false`
unfoldable pub cut_prefix : Bytes → Bytes → Option Bytes
cut_prefix s [] = some s
cut_prefix [] (x ∷ p) = none
cut_prefix (y ∷ s) (x ∷ p) = if x == y then cut_prefix s p else none

unfoldable pub cut_suffix : Bytes → Bytes → Option Bytes
unfolding cut_prefix
cut_suffix s p = Option.map reverse (cut_prefix (reverse s) (reverse p))

-- `strings.Contains(s, sub)`
unfoldable pub contains : Bytes → Bytes → Bool
unfolding cut_prefix
contains [] sub = is_some (cut_prefix [] sub)
contains (c ∷ s) sub = is_some (cut_prefix (c ∷ s) sub) || contains s sub

-- `strings.ReplaceAll(s, old, "")` for an `old` of one byte
unfoldable pub remove_byte : ℕ → Bytes → Bytes
remove_byte old s = keep (λ c. not (c == old)) s

-- `strings.Join(elems, sep)`
unfoldable pub join : List Bytes → Bytes → Bytes
join [] sep = []
join (s ∷ []) sep = s
join (s ∷ t ∷ r) sep = s ++ sep ++ join (t ∷ r) sep

-- `for _, v := range values { if v == want { return true } }; return false`
unfoldable pub contains_string : List Bytes → Bytes → Bool
unfolding same
contains_string values want = any (λ v. same v want) values
