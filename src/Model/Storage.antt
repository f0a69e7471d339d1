-- ===== src/Model/Storage.antt =====
-- `ParseStorageValue` on printed sizes, and its range. (internal/model/server.go)
use mathlib.Core.List.{reverse-append}
use mathlib.Core.Option
use leasewebassignment.Base.{
  ℕ, ◌*◌, ◌^◌, ◌<◌, ◌≤◌, false, ◌||◌, [], ◌∷◌, ◌++◌, reverse, none, ◌≡◌, ◌≢◌, refl, ap, ◌∙◌, ◌⊎◌,
  inl, inr, arith, Option-cases, Bool-cases, Result, ok, Result-cases, >>=-eq-ok,
}
use leasewebassignment.Base.Int.{ℤ, pos, mul_int, mul_int-IsInt, IsInt, int_half}
use leasewebassignment.Text.{Bytes, codes, is_empty, cut_prefix, cut_suffix}
use leasewebassignment.Text.Laws.{cut_suffix-append}
use leasewebassignment.Text.Case.{Unicode, equal_fold}
use leasewebassignment.Text.Space.{trim_space}
use leasewebassignment.Text.Space.Laws.{StartsGraphic, trim_space_lem}
use leasewebassignment.Text.Decimal.{atoi, decimal}
use leasewebassignment.Text.Decimal.Laws.{IsNumber, atoi-IsInt, decimal-IsNumber, value-decimal}
use leasewebassignment.Errors.{Error}
use leasewebassignment.Model.Capacity.{int_of-IsNumber}
use leasewebassignment.Model.{int_of, parse_storage_value}

cut_suffix-other : (d : Bytes) → cut_suffix (d ++ codes "GB") (codes "TB") ≡ none
unfolding cut_suffix
cut_suffix-other d =
    ap (λ t. Option.map reverse (cut_prefix t (codes "BT"))) (reverse-append d (codes "GB"))

number-StartsGraphic : (d s : Bytes) → IsNumber d → StartsGraphic (d ++ s)
number-StartsGraphic [] s (h, _) = cc
number-StartsGraphic (c ∷ d) s (_, h) = ground arith

trim_space-number :
    (d : Bytes) (c : ℕ)
    → IsNumber d
    → (c ≡ b'T') ⊎ (c ≡ b'G')
    → trim_space (d ++ (c ∷ b'B' ∷ [])) ≡ d ++ (c ∷ b'B' ∷ [])
trim_space-number d c h k =
    trim_space_lem (d ++ (c ∷ b'B' ∷ [])) (number-StartsGraphic d _ h)
      (rw (reverse-append d (c ∷ b'B' ∷ [])) refl)

not-IsInt : (n : ℕ) → int_half ≤ n → ¬ (IsInt (pos n))
not-IsInt n h k = omega arith

ok_IsInt : {a b : ℤ} → ◌≡◌ {A = Result Error ℤ} (ok a) (ok b) → IsInt a → IsInt b
ok_IsInt {a} {b} e h = let same_int : a ≡ b = ground arith in rw (← same_int) h

module _ ⦃U : Unicode⦄ where
  not_zero :
      (d : Bytes) (c : ℕ)
      → IsNumber d
      → (is_empty (d ++ (c ∷ b'B' ∷ [])) || equal_fold (d ++ (c ∷ b'B' ∷ [])) (codes "0")) ≡ false
  unfolding equal_fold
  not_zero [] c (h, _) = cc
  not_zero (x ∷ []) c (_, h) = ground arith
  not_zero (x ∷ y ∷ d) c (_, h) = ground arith

  int_of-decimal : (n : ℕ) → n < int_half → int_of (decimal n) ≡ ok (pos n)
  int_of-decimal n h =
      int_of-IsNumber (decimal n) (decimal-IsNumber n) (omega (arith, value-decimal n))
      ∙ ap (λ k. ok (pos k)) (value-decimal n)

  storage-tb :
      (d : Bytes) {z : ℤ}
      → IsNumber d
      → int_of d ≡ ok z
      → parse_storage_value (d ++ codes "TB") ≡ ok (mul_int z (pos 1024))
  unfolding parse_storage_value
  storage-tb d h e =
      rw (not_zero d b'T' h, parse_storage_value)
        (rw (trim_space-number d b'T' h (inl refl)) (rw (cut_suffix-append d (codes "TB")) (rw e)))

  storage-gb :
      (d : Bytes) {z : ℤ}
      → IsNumber d
      → int_of d ≡ ok z
      → parse_storage_value (d ++ codes "GB") ≡ ok z
  unfolding parse_storage_value
  storage-gb d h e =
      rw (not_zero d b'G' h, parse_storage_value)
        (rw (trim_space-number d b'G' h (inr refl)) (
          rw (cut_suffix-other d) (
            rw (trim_space-number d b'G' h (inr refl))
              (rw (cut_suffix-append d (codes "GB")) (rw e)))))

  -- A number of gigabytes, printed with its unit, is read back.
  pub parse_storage_value-gb :
      (n : ℕ) → n < int_half → parse_storage_value (decimal n ++ codes "GB") ≡ ok (pos n)
  parse_storage_value-gb n h = storage-gb (decimal n) (decimal-IsNumber n) (int_of-decimal n h)

  -- A number of terabytes, printed with its unit, is read as 1024 times as many gigabytes, wrapped
  -- round to an `int`.
  pub parse_storage_value-tb :
      (n : ℕ)
      → n < int_half
      → parse_storage_value (decimal n ++ codes "TB") ≡ ok (mul_int (pos n) (pos 1024))
  parse_storage_value-tb n h = storage-tb (decimal n) (decimal-IsNumber n) (int_of-decimal n h)

  -- From 2^53 terabytes on, the size read is never the size written: the product has overflowed,
  -- and no error is returned.
  pub parse_storage_value_overflow :
      (n : ℕ)
      → 2 ^ 53 ≤ n
      → n < int_half
      → (z : ℤ) × (parse_storage_value (decimal n ++ codes "TB") ≡ ok z) × (z ≢ pos (n * 1024))
  parse_storage_value_overflow n h k = (
    mul_int (pos n) (pos 1024),
    parse_storage_value-tb n k,
    λ e. not-IsInt (n * 1024) (omega arith) (rw e at (mul_int-IsInt (pos n) (pos 1024))),
  )

  int_of-IsInt : (s : Bytes) {z : ℤ} → int_of s ≡ ok z → IsInt z
  unfolding int_of
  int_of-IsInt s {z} e = elim (Result-cases (atoi s)) [
    | inl (n, r) ↦ atoi-IsInt s (ground arith)
    | inr (why, r) ↦ absurd (ground arith)
  ]

  -- The size that `ParseStorageValue` returns is an `int` of 64 bits.
  pub parse_storage_value-IsInt : (v : Bytes) {z : ℤ} → parse_storage_value v ≡ ok z → IsInt z
  unfolding parse_storage_value
  parse_storage_value-IsInt v {z} e = elim (Bool-cases (is_empty v || equal_fold v (codes "0"))) [
    | inl zero_size ↦ ok_IsInt (rw (zero_size, parse_storage_value) at e) (omega arith)
    | inr sized ↦ elim (Option-cases (cut_suffix (trim_space v) (codes "TB"))) [
      | inr (parts, tb) ↦
          let (n, read, e') =
            >>=-eq-ok (int_of parts) _ (rw (sized, tb, parse_storage_value) at e) in
          ok_IsInt e' (mul_int-IsInt n (pos 1024))
      | inl not_tb ↦ elim (Option-cases (cut_suffix (trim_space v) (codes "GB"))) [
        | inr (parts, gb) ↦ int_of-IsInt parts (rw (sized, not_tb, gb, parse_storage_value) at e)
        | inl not_gb ↦ absurd (cc (rw (sized, not_tb, not_gb, parse_storage_value) at e))
      ]
    ]
  ]
