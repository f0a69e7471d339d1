-- ===== src/Text/Case.antt =====
-- Upper and lower case, and comparison under case folding. Both have a path of their own for ASCII
-- text, as in package strings; what they do on other text comes from the Unicode tables, which are
-- a parameter.
pub mod Laws
use leasewebassignment.Base.{
  ℕ, ◌+◌, ◌-◌, Bool, true, false, ◌&&◌, ◌||◌, [], ◌∷◌, map, ltb, leb, ◌==◌, within, if◌then◌else◌,
  all,
}
use leasewebassignment.Text.{Bytes}

-- What package strings does beyond ASCII, and `%q` of package fmt.
pub record Unicode : Type 0 where
  -- `strings.Map(unicode.ToUpper, s)` and `strings.Map(unicode.ToLower, s)`
  pub upper : Bytes → Bytes
  pub lower : Bytes → Bytes
  -- the part of `strings.EqualFold` that decodes runes
  pub fold_eq : Bytes → Bytes → Bool
  -- `strconv.Quote`
  pub quote : Bytes → Bytes

abbrev pub is_ascii : Bytes → Bool
is_ascii s = all (λ c. ltb c 128) s

unfoldable pub upper_byte : ℕ → ℕ
upper_byte c = if within b'a' b'z' c then c - 32 else c

unfoldable pub lower_byte : ℕ → ℕ
lower_byte c = if within b'A' b'Z' c then c + 32 else c

-- Two ASCII bytes that differ at most in case.
unfoldable pub fold_byte : ℕ → ℕ → Bool
unfolding upper_byte
fold_byte a b = upper_byte a == upper_byte b

module _ ⦃U : Unicode⦄ where
  unfoldable pub to_upper : Bytes → Bytes
  to_upper s = if is_ascii s then map upper_byte s else U.upper s

  unfoldable pub to_lower : Bytes → Bytes
  to_lower s = if is_ascii s then map lower_byte s else U.lower s

  -- `strings.EqualFold(s, t)`
  unfoldable pub equal_fold : Bytes → Bytes → Bool
  unfolding fold_byte
  equal_fold [] [] = true
  equal_fold [] (_ ∷ _) = false
  equal_fold (_ ∷ _) [] = false
  equal_fold (a ∷ s) (b ∷ t) =
      if leb 128 a || leb 128 b then U.fold_eq (a ∷ s) (b ∷ t) else fold_byte a b && equal_fold s t
