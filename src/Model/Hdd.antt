-- ===== src/Model/Hdd.antt =====
-- The pattern of `ParseHDD`, and the grammar of its values. (internal/model/server.go)
use leasewebassignment.Base.{
  true, false, ◌∷◌, ◌++◌, none, some, ◌≡◌, refl, ap, ◌∙◌, ◌↔◌, ◌⊎◌, inl, inr, arith, if◌then◌else◌,
  all, Option-cases,
}
use leasewebassignment.Base.Options.{>>=-eq-some}
use leasewebassignment.Text.{Bytes, codes, is_empty, cut_prefix}
use leasewebassignment.Text.Laws.{cut_prefix-eq-some}
use leasewebassignment.Text.Decimal.{digits, after_digits}
use leasewebassignment.Text.Decimal.Laws.{
  IsNumber, NoDigit, digits-append, after_digits-append, digits-after_digits, digits-is_digit,
  after_digits-NoDigit,
}
use leasewebassignment.Model.Pattern.{HddMatch, is_alnum, number, unit_pattern, hdd_pattern}

pub number-append : (d r : Bytes) → IsNumber d → NoDigit r → number (d ++ r) ≡ some (d, r)
unfolding number
number-append d r (ne, h) k = rw (digits-append d r h k, after_digits-append d r h k, ne)

number_parts :
    (s d r : Bytes)
    → number s ≡ some (d, r)
    → (d ≡ digits s) × (r ≡ after_digits s) × (is_empty (digits s) ≡ false)
unfolding number
number_parts s d r e = ground arith

pub number-eq-some :
    (s d r : Bytes) → number s ≡ some (d, r) → IsNumber d × NoDigit r × (s ≡ d ++ r)
number-eq-some s d r e =
    let (same_d, same_r, ne) = number_parts s d r e in
    rw (same_d, same_r) ((ne, digits-is_digit s), after_digits-NoDigit s, digits-after_digits s)

abbrev pub IsUnit : Bytes → Type 0
IsUnit u = (u ≡ codes "GB") ⊎ (u ≡ codes "TB")

-- The parts of a value of the HDD column.
pub record IsHdd (m : HddMatch) : Type 0 where
  pub count_number : IsNumber m.count
  pub size_number : IsNumber m.size
  pub unit_known : IsUnit m.unit
  pub label_ne_nil : is_empty m.label ≡ false
  pub label_alnum : all is_alnum m.label ≡ true

abbrev pub hdd_text : HddMatch → Bytes
hdd_text m = m.count ++ (b'x' ∷ (m.size ++ (m.unit ++ m.label)))

unit_pattern-append : (u r : Bytes) → IsUnit u → unit_pattern (u ++ r) ≡ some (u, r)
unfolding unit_pattern
unit_pattern-append u r (inl e) = rw e refl
unit_pattern-append u r (inr e) = rw e refl

unit_pattern-eq-some : (s u r : Bytes) → unit_pattern s ≡ some (u, r) → IsUnit u × (s ≡ u ++ r)
unfolding unit_pattern
unit_pattern-eq-some s u r e = elim (Option-cases (cut_prefix s (codes "GB"))) [
  | inr (t, cut) ↦
      let back = cut_prefix-eq-some s (codes "GB") cut in
      let (same_u, same_r) : (u ≡ codes "GB") × (r ≡ t) = ground arith in
      rw (same_u, same_r) (inl refl, back)
  | inl missed ↦ elim (Option-cases (cut_prefix s (codes "TB"))) [
    | inr (t, cut) ↦
        let back = cut_prefix-eq-some s (codes "TB") cut in
        let (same_u, same_r) : (u ≡ codes "TB") × (r ≡ t) = ground arith in
        rw (same_u, same_r) (inr refl, back)
    | inl missed' ↦ absurd (ground arith)
  ]
]

IsUnit-NoDigit : (u r : Bytes) → IsUnit u → NoDigit (u ++ r)
IsUnit-NoDigit u r (inl e) = rw e refl
IsUnit-NoDigit u r (inr e) = rw e refl

hdd_pattern-text : (m : HddMatch) → IsHdd m → hdd_pattern (hdd_text m) ≡ some m
unfolding hdd_pattern
hdd_pattern-text m h =
    rw (number-append m.count (b'x' ∷ (m.size ++ (m.unit ++ m.label))) h.count_number refl) (
      rw
        (number-append m.size (m.unit ++ m.label) h.size_number
          (IsUnit-NoDigit m.unit m.label h.unit_known))
        (rw (unit_pattern-append m.unit m.label h.unit_known, h.label_ne_nil, h.label_alnum)))

label_parts :
    (m m' : HddMatch)
    → (if is_empty m'.label then none else if all is_alnum m'.label then some m' else none) ≡ some m
    → (m ≡ m') × (is_empty m'.label ≡ false) × (all is_alnum m'.label ≡ true)
label_parts m m' e = ground arith

hdd_pattern-eq-some :
    (s : Bytes) (m : HddMatch) → hdd_pattern s ≡ some m → IsHdd m × (s ≡ hdd_text m)
unfolding hdd_pattern
hdd_pattern-eq-some s m e =
    let ((count, s₁), at_count, e₁) = >>=-eq-some (number s) _ e in
    let (s₂, at_x, e₂) = >>=-eq-some (cut_prefix s₁ (codes "x")) _ e₁ in
    let ((size, s₃), at_size, e₃) = >>=-eq-some (number s₂) _ e₂ in
    let ((unit, label), at_unit, e₄) = >>=-eq-some (unit_pattern s₃) _ e₃ in
    let (count_number, _, count_text) = number-eq-some s count s₁ at_count in
    let x_text = cut_prefix-eq-some s₁ (codes "x") at_x in
    let (size_number, _, size_text) = number-eq-some s₂ size s₃ at_size in
    let (unit_known, unit_text) = unit_pattern-eq-some s₃ unit label at_unit in
    let (same, ne, alnum) = label_parts m _ e₄ in
    rw same (
      record {
        count_number = count_number;
        size_number = size_number;
        unit_known = unit_known;
        label_ne_nil = ne;
        label_alnum = alnum;
      },
      count_text ∙ ap (◌++◌ count) (x_text ∙ ap (◌∷◌ b'x') (size_text ∙ ap (◌++◌ size) unit_text)),
    )

-- The pattern matches the values of its grammar, and takes them apart as they are put together.
pub hdd_pattern_iff :
    (s : Bytes) (m : HddMatch) → (hdd_pattern s ≡ some m) ↔ (IsHdd m × (s ≡ hdd_text m))
hdd_pattern_iff s m = (hdd_pattern-eq-some s m, λ h. ap hdd_pattern h.1 ∙ hdd_pattern-text m h.0)
