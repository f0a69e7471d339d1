-- ===== src/Text/Case/Laws.antt =====
-- Case mapping on ASCII text.
use leasewebassignment.Base.{ℕ, true, [], ◌∷◌, map, ◌≡◌, refl, arith, all}
use leasewebassignment.Text.{Bytes, same}
use leasewebassignment.Text.Decimal.{is_digit}
use leasewebassignment.Text.Case.{Unicode, is_ascii, upper_byte, to_upper, equal_fold}

pub upper_byte_idem : (c : ℕ) → upper_byte (upper_byte c) ≡ upper_byte c
unfolding upper_byte
upper_byte_idem c = ground arith

pub map-upper_byte_digits : (d : Bytes) → all is_digit d ≡ true → map upper_byte d ≡ d
unfolding upper_byte
map-upper_byte_digits [] h = refl
map-upper_byte_digits (c ∷ d) h = ground (arith, map-upper_byte_digits d)

pub is_ascii_digits : (d : Bytes) → all is_digit d ≡ true → is_ascii d ≡ true
is_ascii_digits [] h = refl
is_ascii_digits (c ∷ d) h = ground (arith, is_ascii_digits d)

pub is_ascii-map-upper_byte : (s : Bytes) → is_ascii s ≡ true → is_ascii (map upper_byte s) ≡ true
unfolding upper_byte
is_ascii-map-upper_byte [] h = refl
is_ascii-map-upper_byte (c ∷ s) h = ground (arith, is_ascii-map-upper_byte s)

module _ ⦃U : Unicode⦄ where
  pub to_upper_ascii : (s : Bytes) → is_ascii s ≡ true → to_upper s ≡ map upper_byte s
  unfolding to_upper
  to_upper_ascii s h = rw h

  -- Two ASCII texts are equal under folding exactly when their upper case is.
  pub equal_fold_ascii :
      (s t : Bytes)
      → is_ascii s ≡ true
      → is_ascii t ≡ true
      → equal_fold s t ≡ same (map upper_byte s) (map upper_byte t)
  unfolding equal_fold same
  equal_fold_ascii [] [] h k = refl
  equal_fold_ascii [] (b ∷ t) h k = refl
  equal_fold_ascii (a ∷ s) [] h k = refl
  equal_fold_ascii (a ∷ s) (b ∷ t) h k = ground (arith, equal_fold_ascii s t)
