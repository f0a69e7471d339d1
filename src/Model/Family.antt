-- ===== src/Model/Family.antt =====
-- `RAMFamily` and `NormalizeDiskType` on labels of their usual form. (internal/model/server.go)
use mathlib.Core.List.{reverse-append, reverse-reverse, map-append}
use leasewebassignment.Base.{
  ℕ, Bool, true, not, ◌||◌, [], ◌∷◌, ◌++◌, map, reverse, some, ◌≡◌, refl, ap, ◌∙◌, arith, all,
  all-append, all-reverse, ltb, within,
}
use leasewebassignment.Text.{Bytes, codes}
use leasewebassignment.Text.Case.{Unicode, upper_byte, is_ascii, to_upper}
use leasewebassignment.Text.Case.Laws.{to_upper_ascii, map-upper_byte_digits, is_ascii_digits}
use leasewebassignment.Text.Space.{trim_space}
use leasewebassignment.Text.Space.Laws.{StartsGraphic, trim_space_lem}
use leasewebassignment.Text.Decimal.{is_digit, after_digits}
use leasewebassignment.Text.Decimal.Laws.{IsNumber, NoDigit, after_digits-append}
use leasewebassignment.Model.Pattern.{
  is_alnum, is_re_space, after_spaces, gb_pattern, ram_family_pattern,
}
use leasewebassignment.Model.Hdd.{number-append}
use leasewebassignment.Model.{ram_family, normalize_disk_type}

abbrev pub is_letter : ℕ → Bool
is_letter c = within b'A' b'Z' c || within b'a' b'z' c

-- "GB", "Gb", "gB" or "gb"
abbrev pub IsGb : Bytes → Type 0
IsGb gb = map upper_byte gb ≡ codes "GB"

after_spaces-append :
    (sp s : Bytes) → all is_re_space sp ≡ true → after_spaces (sp ++ s) ≡ after_spaces s
unfolding after_spaces
after_spaces-append [] s h = refl
after_spaces-append (c ∷ sp) s h = ground (arith, after_spaces-append sp s)

after_spaces-number : (d s : Bytes) → IsNumber d → after_spaces (d ++ s) ≡ d ++ s
unfolding after_spaces
after_spaces-number [] s (h, _) = cc
after_spaces-number (c ∷ d) s (_, h) = ground arith

gb_pattern-append :
    (g b : ℕ) (s : Bytes) → IsGb (g ∷ b ∷ []) → gb_pattern (g ∷ b ∷ s) ≡ some (g ∷ b ∷ [])
unfolding gb_pattern upper_byte
gb_pattern-append g b s h = ground arith

gb-NoDigit : (g b : ℕ) (s : Bytes) → IsGb (g ∷ b ∷ []) → NoDigit (g ∷ b ∷ s)
unfolding upper_byte
gb-NoDigit g b s h = ground arith

gb_ascii : (g b : ℕ) → IsGb (g ∷ b ∷ []) → is_ascii (g ∷ b ∷ []) ≡ true
unfolding upper_byte
gb_ascii g b h = ground arith

ram_family_pattern-append :
    (sp d : Bytes) (g b : ℕ) (suffix : Bytes)
    → all is_re_space sp ≡ true
    → IsNumber d
    → IsGb (g ∷ b ∷ [])
    → ram_family_pattern (sp ++ (d ++ (g ∷ b ∷ suffix))) ≡ some (d ++ (g ∷ b ∷ []))
unfolding ram_family_pattern
ram_family_pattern-append sp d g b suffix h k l =
    rw (after_spaces-append sp (d ++ (g ∷ b ∷ suffix)) h) (
      rw (after_spaces-number d (g ∷ b ∷ suffix) k) (
        rw (number-append d (g ∷ b ∷ suffix) k (gb-NoDigit g b suffix l))
          (rw (gb_pattern-append g b suffix l))))

module _ ⦃U : Unicode⦄ where
  -- Whatever follows "<digits>GB" in a RAM label, and whatever the case of the two letters, the
  -- family is the digits and "GB".
  pub ram_family_lem :
      (sp d : Bytes) (g b : ℕ) (suffix : Bytes)
      → all is_re_space sp ≡ true
      → IsNumber d
      → IsGb (g ∷ b ∷ [])
      → ram_family (sp ++ (d ++ (g ∷ b ∷ suffix))) ≡ d ++ codes "GB"
  unfolding ram_family
  ram_family_lem sp d g b suffix h k l =
      rw (ram_family_pattern-append sp d g b suffix h k l, ram_family)
        (to_upper_ascii (d ++ (g ∷ b ∷ [])) (
            all-append (λ c. ltb c 128) d (g ∷ b ∷ []) ∙ rw (is_ascii_digits d k.1, gb_ascii g b l))
          ∙ map-append upper_byte d (g ∷ b ∷ [])
          ∙ rw (map-upper_byte_digits d k.1, l))

all-letters-alnum : (s : Bytes) → all is_letter s ≡ true → all is_alnum s ≡ true
all-letters-alnum [] h = refl
all-letters-alnum (c ∷ s) h = ground (arith, all-letters-alnum s)

all-digits-alnum : (s : Bytes) → all is_digit s ≡ true → all is_alnum s ≡ true
all-digits-alnum [] h = refl
all-digits-alnum (c ∷ s) h = ground (arith, all-digits-alnum s)

alnum-StartsGraphic : (s : Bytes) → all is_alnum s ≡ true → StartsGraphic s
alnum-StartsGraphic [] h = tt
alnum-StartsGraphic (c ∷ s) h = ground arith

alnum_ascii : (s : Bytes) → all is_alnum s ≡ true → is_ascii s ≡ true
alnum_ascii [] h = refl
alnum_ascii (c ∷ s) h = ground (arith, alnum_ascii s)

trim_space-alnum : (s : Bytes) → all is_alnum s ≡ true → trim_space s ≡ s
trim_space-alnum s h =
    trim_space_lem s (alnum-StartsGraphic s h)
      (alnum-StartsGraphic (reverse s) (all-reverse is_alnum s ∙ h))

no_digits : (s : Bytes) → all (λ c. not (is_digit c)) s ≡ true → NoDigit s
no_digits [] h = tt
no_digits (c ∷ s) h = ground arith

upper_letters :
    (s : Bytes) → all is_letter s ≡ true → all (λ c. not (is_digit c)) (map upper_byte s) ≡ true
unfolding upper_byte
upper_letters [] h = refl
upper_letters (c ∷ s) h = ground (arith, upper_letters s)

module _ ⦃U : Unicode⦄ where
  -- A label of letters and a generation number normalises to the letters in upper case.
  pub normalize_disk_type_lem :
      (label generation : Bytes)
      → all is_letter label ≡ true
      → all is_digit generation ≡ true
      → normalize_disk_type (label ++ generation) ≡ map upper_byte label
  unfolding normalize_disk_type
  normalize_disk_type_lem label generation h k =
      let whole : all is_alnum (label ++ generation) ≡ true =
        all-append is_alnum label generation
        ∙ rw (all-letters-alnum label h, all-digits-alnum generation k) in
      ap (λ t. reverse (after_digits (reverse (to_upper t)))) (trim_space-alnum _ whole)
      ∙ ap (λ t. reverse (after_digits (reverse t))) {y = map upper_byte label ++ generation}
          (to_upper_ascii (label ++ generation) (alnum_ascii (label ++ generation) whole)
            ∙ map-append upper_byte label generation
            ∙ rw (map-upper_byte_digits generation k))
      ∙ ap (λ t. reverse (after_digits t)) (reverse-append (map upper_byte label) generation)
      ∙ ap reverse (
          after_digits-append (reverse generation) (reverse (map upper_byte label))
            (all-reverse is_digit generation ∙ k)
            (no_digits _ (all-reverse _ (map upper_byte label) ∙ upper_letters label h)))
      ∙ reverse-reverse (map upper_byte label)
