-- ===== src/Model/Validate.antt =====
-- `ValidateRAM`, `ValidateHDD` and `ParseRAM`: the values that they accept.
-- (internal/model/server.go)
use leasewebassignment.Base.{
  ◌<◌, true, [], ◌∷◌, ◌++◌, none, some, ◌≡◌, refl, ap, ◌∙◌, ◌↔◌, ◌⊎◌, inl, inr, arith, Option-cases,
  ok,
}
use leasewebassignment.Base.Options.{>>=-eq-some}
use leasewebassignment.Base.Int.{ℤ, pos, int_half}
use leasewebassignment.Text.{Bytes, codes, same}
use leasewebassignment.Text.Laws.{same_iff}
use leasewebassignment.Text.Case.{Unicode}
use leasewebassignment.Text.Space.{trim_space}
use leasewebassignment.Text.Decimal.{value}
use leasewebassignment.Text.Decimal.Laws.{IsNumber}
use leasewebassignment.Model.Pattern.{HddMatch, ram_pattern, hdd_pattern, number}
use leasewebassignment.Model.Hdd.{IsHdd, hdd_text, hdd_pattern_iff, number-append, number-eq-some}
use leasewebassignment.Model.Capacity.{int_of-IsNumber, int_of-eq-ok}
use leasewebassignment.Model.{validate_ram, validate_hdd, parse_ram}

ram_pattern-eq-some : (s d : Bytes) → ram_pattern s ≡ some d → IsNumber d × (s ≡ d ++ codes "GB")
unfolding ram_pattern
ram_pattern-eq-some s d e =
    let ((d', rest), at_number, e') = >>=-eq-some (number s) _ e in
    let (h, _, text) = number-eq-some s d' rest at_number in
    let (same_d, gb) : (d ≡ d') × (same rest (codes "GB") ≡ true) = ground arith in
    rw same_d (h, text ∙ ap (◌++◌ d') ((same_iff rest (codes "GB")).0 gb))

ram_pattern-number : (d : Bytes) → IsNumber d → ram_pattern (d ++ codes "GB") ≡ some d
unfolding ram_pattern
ram_pattern-number d h = rw (number-append d (codes "GB") h refl)

-- The pattern matches digits followed by "GB", and captures the digits.
pub ram_pattern_iff :
    (s d : Bytes) → (ram_pattern s ≡ some d) ↔ (IsNumber d × (s ≡ d ++ codes "GB"))
ram_pattern_iff s d = (ram_pattern-eq-some s d, λ h. ap ram_pattern h.1 ∙ ram_pattern-number d h.0)

module _ ⦃U : Unicode⦄ where
  -- `ValidateRAM` accepts the empty value, and digits followed by "GB"; nothing else.
  pub validate_ram_iff :
      (v : Bytes)
      → (validate_ram v ≡ none) ↔ ((v ≡ []) ⊎ ((d : Bytes) × IsNumber d × (v ≡ d ++ codes "GB")))
  unfolding validate_ram
  validate_ram_iff [] = (λ _. inl refl, λ _. refl)
  validate_ram_iff (c ∷ v) = (
    λ e. elim (Option-cases (ram_pattern (c ∷ v))) [
      | inl missed ↦ absurd (cc (rw (missed, validate_ram) at e))
      | inr (d, matched) ↦ let (h, text) = (ram_pattern_iff (c ∷ v) d).0 matched in inr (d, h, text)
    ],
    λ h. elim h [
      | inl nil ↦ absurd (cc nil)
      | inr (d, h, text) ↦ rw ((ram_pattern_iff (c ∷ v) d).1 (h, text), validate_ram)
    ],
  )

  -- `ValidateHDD` accepts the empty value, and the values of the HDD grammar; nothing else.
  pub validate_hdd_iff :
      (v : Bytes)
      → (validate_hdd v ≡ none) ↔ ((v ≡ []) ⊎ ((m : HddMatch) × IsHdd m × (v ≡ hdd_text m)))
  unfolding validate_hdd
  validate_hdd_iff [] = (λ _. inl refl, λ _. refl)
  validate_hdd_iff (c ∷ v) = (
    λ e. elim (Option-cases (hdd_pattern (c ∷ v))) [
      | inl missed ↦ absurd (cc (rw (missed, validate_hdd) at e))
      | inr (m, matched) ↦ let (h, text) = (hdd_pattern_iff (c ∷ v) m).0 matched in inr (m, h, text)
    ],
    λ h. elim h [
      | inl nil ↦ absurd (cc nil)
      | inr (m, parts, text) ↦ rw ((hdd_pattern_iff (c ∷ v) m).1 (parts, text), validate_hdd)
    ],
  )

  -- `ParseRAM` succeeds exactly on digits followed by "GB", white space around them apart, where
  -- the digits stand for an `int`, and returns that `int`.
  pub parse_ram_iff :
      (v : Bytes) (z : ℤ)
      → (parse_ram v ≡ ok z) ↔ (
          (d : Bytes) × IsNumber d
          × (trim_space v ≡ d ++ codes "GB")
          × (value d < int_half)
          × (z ≡ pos (value d)))
  unfolding parse_ram
  parse_ram_iff v z = (
    λ e. elim (Option-cases (ram_pattern (trim_space v))) [
      | inl missed ↦ absurd (cc (rw (missed, parse_ram) at e))
      | inr (d, matched) ↦
          let (h, text) = (ram_pattern_iff (trim_space v) d).0 matched in
          let (small, read) = int_of-eq-ok d h (rw (matched, parse_ram) at e) in
          (d, h, text, small, read)
    ],
    λ (d, h, text, small, read).
        rw ((ram_pattern_iff (trim_space v) d).1 (h, text), parse_ram)
          (int_of-IsNumber d h small ∙ rw read),
  )
