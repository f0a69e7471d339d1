-- ===== src/Model/Capacity.antt =====
-- The storage that an HDD value stands for, and `ParseHDD`. (internal/model/server.go)
use leasewebassignment.Base.{
  ℕ, ◌*◌, ◌<◌, some, ◌≡◌, sym, ap, ◌∙◌, ◌↔◌, inl, inr, arith, if◌then◌else◌, Option-cases, Result,
  ok, Result-cases, >>=-eq-ok,
}
use leasewebassignment.Base.Int.{ℤ, pos, wrap, mul_int, int_half}
use leasewebassignment.Text.{Bytes, codes, same}
use leasewebassignment.Text.Case.{Unicode, equal_fold}
use leasewebassignment.Text.Space.{trim_space}
use leasewebassignment.Text.Decimal.{value, atoi}
use leasewebassignment.Text.Decimal.Laws.{IsNumber, atoi-IsNumber, atoi-IsNumber_range}
use leasewebassignment.Errors.{Error}
use leasewebassignment.Model.Pattern.{HddMatch, hdd_pattern}
use leasewebassignment.Model.Hdd.{IsHdd, IsUnit, hdd_text, hdd_pattern_iff}
use leasewebassignment.Model.{int_of, hdd_total, parse_hdd, normalize_disk_type}

ok_pair :
    {a a' : ℤ} {b b' : Bytes}
    → ◌≡◌ {A = Result Error (ℤ × Bytes)} (ok (a, b)) (ok (a', b'))
    → (a ≡ a') × (b ≡ b')
ok_pair e = ground arith

-- The gigabytes in one unit.
abbrev pub unit_size : Bytes → ℕ
unit_size unit = if same unit (codes "TB") then 1024 else 1

-- The size of all the disks, in gigabytes.
abbrev pub gigabytes : HddMatch → ℕ
gigabytes m = value m.count * value m.size * unit_size m.unit

-- The two factors are `int`s.
abbrev pub FitsInt : HddMatch → Type 0
FitsInt m = (value m.count < int_half) × (value m.size < int_half)

mul_int-mul_int :
    (a b : ℕ) → mul_int (mul_int (pos a) (pos b)) (pos 1024) ≡ wrap (pos (a * b * 1024))
unfolding mul_int wrap
mul_int-mul_int a b = ground arith

mul_int-wrap : (a b : ℕ) → mul_int (pos a) (pos b) ≡ wrap (pos (a * b * 1))
unfolding mul_int wrap
mul_int-wrap a b = ground arith

module _ ⦃U : Unicode⦄ where
  pub int_of-IsNumber :
      (s : Bytes) → IsNumber s → value s < int_half → int_of s ≡ ok (pos (value s))
  unfolding int_of
  int_of-IsNumber s h k = rw (atoi-IsNumber s h k)

  pub int_of-eq-ok :
      (s : Bytes) {z : ℤ}
      → IsNumber s
      → int_of s ≡ ok z
      → (value s < int_half) × (z ≡ pos (value s))
  unfolding int_of
  int_of-eq-ok s {z} h e = elim (Result-cases (atoi s)) [
    | inl (n, r) ↦ atoi-IsNumber_range s h (ground arith)
    | inr (why, r) ↦ absurd (ground arith)
  ]

  unit_total :
      (unit : Bytes) (a b : ℕ)
      → IsUnit unit
      → (if equal_fold unit (codes "TB")
          then mul_int (mul_int (pos a) (pos b)) (pos 1024)
          else mul_int (pos a) (pos b))
        ≡ wrap (pos (a * b * unit_size unit))
  unfolding same equal_fold
  unit_total unit a b (inl e) = rw e (mul_int-wrap a b)
  unit_total unit a b (inr e) = rw e (mul_int-mul_int a b)

  hdd_total-IsHdd :
      (m : HddMatch)
      → IsHdd m
      → FitsInt m
      → hdd_total m ≡ ok (wrap (pos (gigabytes m)), normalize_disk_type m.label)
  unfolding hdd_total
  hdd_total-IsHdd m h (c, s) =
      rw (int_of-IsNumber m.count h.count_number c, int_of-IsNumber m.size h.size_number s)
        (ap (λ t. ok (t, normalize_disk_type m.label))
          (unit_total m.unit (value m.count) (value m.size) h.unit_known))

  hdd_total-FitsInt : (m : HddMatch) {r : ℤ × Bytes} → IsHdd m → hdd_total m ≡ ok r → FitsInt m
  unfolding hdd_total
  hdd_total-FitsInt m h e =
      let (count, at_count, e₁) = >>=-eq-ok (int_of m.count) _ e in
      let (size, at_size, e₂) = >>=-eq-ok (int_of m.size) _ e₁ in
      (
        (int_of-eq-ok m.count h.count_number at_count).0,
        (int_of-eq-ok m.size h.size_number at_size).0,
      )

  parse_hdd-IsHdd :
      (v : Bytes) (m : HddMatch) → hdd_pattern (trim_space v) ≡ some m → parse_hdd v ≡ hdd_total m
  unfolding parse_hdd
  parse_hdd-IsHdd v m e = rw (e, parse_hdd)

  -- `ParseHDD` succeeds exactly on the values that, without the white space around them, are a
  -- count, "x", a size, "GB" or "TB", and a label of letters and digits, where the count and the
  -- size are `int`s. The result is the product in gigabytes, wrapped round to an `int`, and the
  -- family of the label.
  pub parse_hdd_iff :
      (v : Bytes) (total : ℤ) (disk_type : Bytes)
      → (parse_hdd v ≡ ok (total, disk_type)) ↔ (
          (m : HddMatch) × IsHdd m
          × (trim_space v ≡ hdd_text m)
          × FitsInt m
          × (total ≡ wrap (pos (gigabytes m)))
          × (disk_type ≡ normalize_disk_type m.label))
  unfolding parse_hdd
  parse_hdd_iff v total disk_type = (
    λ e. elim (Option-cases (hdd_pattern (trim_space v))) [
      | inl missed ↦ absurd (cc (rw (missed, parse_hdd) at e))
      | inr (m, matched) ↦
          let (h, text) = (hdd_pattern_iff (trim_space v) m).0 matched in
          let e' : hdd_total m ≡ ok (total, disk_type) = rw (matched, parse_hdd) at e in
          let fits = hdd_total-FitsInt m h e' in
          let both = ok_pair (sym e' ∙ hdd_total-IsHdd m h fits) in
          (m, h, text, fits, both.0, both.1)
    ],
    λ (m, h, text, fits, t, d).
        parse_hdd-IsHdd v m ((hdd_pattern_iff (trim_space v) m).1 (h, text))
        ∙ hdd_total-IsHdd m h fits
        ∙ rw (t, d),
  )
