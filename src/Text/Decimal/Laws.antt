-- ===== src/Text/Decimal/Laws.antt =====
-- Scanning and printing decimal numbers.
use leasewebassignment.Base.{
  ℕ, zero, suc, ◌+◌, ◌-◌, ◌*◌, ◌/◌, ◌%◌, ◌≤◌, ◌<◌, true, false, [], ◌∷◌, ◌++◌, ◌≡◌, refl, ap, ◌∙◌,
  arith, ltb, all, Bool-cases, Result-cases, ok, inl, inr,
}
use leasewebassignment.Base.Int.{ℤ, pos, IsInt, int_half, int_mod}
use leasewebassignment.Text.{Bytes, is_empty}
use leasewebassignment.Text.Decimal.{
  is_digit, value_from, value, digits, after_digits, scan_uint, atoi, decimal_from, decimal,
}

-- Text that does not go on with a digit.
abbrev pub NoDigit : Bytes → Type 0
NoDigit [] = Unit
NoDigit (c ∷ _) = is_digit c ≡ false

-- One digit or more, and nothing else.
abbrev pub IsNumber : Bytes → Type 0
IsNumber s = (is_empty s ≡ false) × (all is_digit s ≡ true)

pub digits-append : (d r : Bytes) → all is_digit d ≡ true → NoDigit r → digits (d ++ r) ≡ d
unfolding digits
digits-append [] [] h k = refl
digits-append [] (c ∷ r) h k = ground arith
digits-append (c ∷ d) r h k = ground (arith, digits-append d r)

pub after_digits-append :
    (d r : Bytes) → all is_digit d ≡ true → NoDigit r → after_digits (d ++ r) ≡ r
unfolding after_digits
after_digits-append [] [] h k = refl
after_digits-append [] (c ∷ r) h k = ground arith
after_digits-append (c ∷ d) r h k = ground (arith, after_digits-append d r)

pub digits-after_digits : (s : Bytes) → s ≡ digits s ++ after_digits s
unfolding digits after_digits
digits-after_digits [] = refl
digits-after_digits (c ∷ s) = ground (arith, digits-after_digits s)

pub digits-is_digit : (s : Bytes) → all is_digit (digits s) ≡ true
unfolding digits
digits-is_digit [] = refl
digits-is_digit (c ∷ s) = ground (arith, digits-is_digit s)

pub after_digits-NoDigit : (s : Bytes) → NoDigit (after_digits s)
unfolding after_digits
after_digits-NoDigit [] = tt
after_digits-NoDigit (c ∷ s) = elim (Bool-cases (is_digit c)) [
  | inl h ↦ rw h (after_digits-NoDigit s)
  | inr h ↦ rw h h
]

value_from_ge : (n : ℕ) (s : Bytes) → n ≤ value_from n s
value_from_ge n [] = omega arith
value_from_ge n (c ∷ s) = omega (arith, value_from_ge (n * 10 + (c - b'0')) s)

scan_uint-value :
    (n : ℕ) (s : Bytes)
    → all is_digit s ≡ true
    → value_from n s < int_mod
    → scan_uint n s ≡ ok (value_from n s)
unfolding scan_uint
scan_uint-value n [] h k = refl
scan_uint-value n (c ∷ s) h k =
    ground (arith, value_from_ge (n * 10 + (c - b'0')) s, scan_uint-value (n * 10 + (c - b'0')) s)

pub scan_uint-eq-ok :
    (n : ℕ) (s : Bytes) {m : ℕ}
    → scan_uint n s ≡ ok m
    → (all is_digit s ≡ true) × (m ≡ value_from n s)
unfolding scan_uint
scan_uint-eq-ok n [] h = ground arith
scan_uint-eq-ok n (c ∷ s) {m} h = ground (arith, scan_uint-eq-ok (n * 10 + (c - b'0')) s {m = m})

-- Digits are read as the number that they stand for, where it is an `int`.
pub atoi-IsNumber : (s : Bytes) → IsNumber s → value s < int_half → atoi s ≡ ok (pos (value s))
unfolding atoi
atoi-IsNumber [] (h, _) k = cc
atoi-IsNumber (c ∷ s) (_, h) k = ground (arith, scan_uint-value 0 (c ∷ s))

-- ... and are refused where it is not.
pub atoi-IsNumber_range :
    (s : Bytes) {z : ℤ} → IsNumber s → atoi s ≡ ok z → (value s < int_half) × (z ≡ pos (value s))
unfolding atoi
atoi-IsNumber_range [] (h, _) e = cc
atoi-IsNumber_range (c ∷ s) (_, h) e = elim (Result-cases (scan_uint 0 (c ∷ s))) [
  | inl (m, r) ↦ ground (arith, scan_uint-eq-ok 0 (c ∷ s) r)
  | inr (why, r) ↦ ground arith
]

-- What `Atoi` returns is an `int`.
pub atoi-IsInt : (s : Bytes) {z : ℤ} → atoi s ≡ ok z → IsInt z
unfolding atoi
atoi-IsInt [] e = cc
atoi-IsInt (c ∷ s) {z} e = ground arith

value_from-append : (n : ℕ) (s t : Bytes) → value_from n (s ++ t) ≡ value_from (value_from n s) t
value_from-append n [] t = refl
value_from-append n (c ∷ s) t = value_from-append (n * 10 + (c - b'0')) s t

all-decimal_from :
    (fuel n : ℕ) (acc : Bytes)
    → all is_digit acc ≡ true
    → all is_digit (decimal_from fuel n acc) ≡ true
unfolding decimal_from
all-decimal_from zero n acc h = h
all-decimal_from (suc fuel) n acc h =
    ground (arith, all-decimal_from fuel (n / 10) ((b'0' + n % 10) ∷ acc))

-- Enough fuel prints all of the number, whatever stands behind it.
value_from-decimal_from :
    (fuel n : ℕ) (acc : Bytes) → n < fuel → value (decimal_from fuel n acc) ≡ value_from n acc
unfolding decimal_from
value_from-decimal_from zero n acc h = elim h [ ]
value_from-decimal_from (suc fuel) n acc h = elim (Bool-cases (ltb n 10)) [
  | inl small ↦ rw small (ap (λ (k : ℕ). value_from k acc) (ground arith))
  | inr large ↦ rw large (
      value_from-decimal_from fuel (n / 10) ((b'0' + n % 10) ∷ acc) (ground arith)
      ∙ ap (λ (k : ℕ). value_from k acc) (omega arith))
]

decimal_from-ne-nil :
    (fuel n c : ℕ) (acc : Bytes) → is_empty (decimal_from fuel n (c ∷ acc)) ≡ false
unfolding decimal_from
decimal_from-ne-nil zero n c acc = refl
decimal_from-ne-nil (suc fuel) n c acc =
    ground (arith, decimal_from-ne-nil fuel (n / 10) (b'0' + n % 10) (c ∷ acc))

pub decimal-IsNumber : (n : ℕ) → IsNumber (decimal n)
unfolding decimal
decimal-IsNumber n = (
  ground (arith, decimal_from-ne-nil n (n / 10) (b'0' + n % 10) []),
  all-decimal_from (suc n) n [] refl,
)

pub value-decimal : (n : ℕ) → value (decimal n) ≡ n
unfolding decimal
value-decimal n = value_from-decimal_from (suc n) n [] (omega arith)

-- `Atoi` reads back what `%d` prints of an `int` that is not negative.
pub atoi-decimal : (n : ℕ) → n < int_half → atoi (decimal n) ≡ ok (pos n)
atoi-decimal n h =
    atoi-IsNumber (decimal n) (decimal-IsNumber n) (omega (arith, value-decimal n))
    ∙ ap (λ k. ok (pos k)) (value-decimal n)
