-- ===== src/Model.antt =====
-- The field formats of the catalog: RAM ("16GBDDR3"), HDD ("2x2TBSATA2"), price and storage sizes.
-- Each regular expression is the matcher that it denotes. (internal/model/server.go)
pub mod Pattern
pub mod Hdd
pub mod Capacity
pub mod Family
pub mod Storage
pub mod Validate
use leasewebassignment.Base.{
  ℕ, Bool, true, false, not, ◌||◌, List, [], ◌∷◌, ◌++◌, Option, none, some, ◌==◌, if◌then◌else◌,
  Result, ok, err, ◌>>=◌, map_err, reverse,
}
use leasewebassignment.Base.Int.{ℤ, pos, mul_int}
use leasewebassignment.Text.{
  Bytes, codes, same, is_empty, is_some, cut_prefix, cut_suffix, remove_byte,
}
use leasewebassignment.Text.Case.{Unicode, to_upper, equal_fold}
use leasewebassignment.Text.Space.{trim_space}
use leasewebassignment.Text.Decimal.{NumError, syntax, range, atoi, after_digits}
use leasewebassignment.Errors.{Error, plain}
use Pattern.{HddMatch, ram_pattern, hdd_pattern, ram_family_pattern}

-- `model.Server`; `F` is `float64`.
pub record Server {ℓ} (F : Type ℓ) : Type ℓ where
  pub model : Bytes
  pub ram : Bytes
  pub hdd : Bytes
  pub location : Bytes
  pub price : F

-- `model.ServerFilter`; a nil pointer is `none`.
pub record ServerFilter : Type 0 where
  pub model : Bytes
  pub ram : List Bytes
  pub location : Bytes
  pub disk_type : Bytes
  pub storage_min : Option ℤ
  pub storage_max : Option ℤ

-- What package strconv does with floating point numbers.
pub record Floats {ℓ} (F : Type ℓ) : Type ℓ where
  pub zero_float : F
  -- `strconv.ParseFloat(s, 64)`
  pub parse_float : Bytes → Result Error F

-- "€" in UTF-8
abbrev pub euro_sign : Bytes
euro_sign = 0xE2 ∷ 0x82 ∷ 0xAC ∷ []

-- `if strings.HasPrefix(s, p) { s = strings.TrimPrefix(s, p) } else …`
trim_currency : Bytes → Bytes
trim_currency s = elim (cut_prefix s euro_sign) [
  | some r ↦ r
  | none ↦ elim (cut_prefix s (codes "S$")) [
    | some r ↦ r
    | none ↦ elim (cut_prefix s (codes "$")) [ some r ↦ r | none ↦ s ]
  ]
]

unfoldable pub parse_price {ℓ} : {F : Type ℓ} ⦃fl : Floats F⦄ → Bytes → Result Error F
unfolding same trim_currency cut_prefix remove_byte trim_space
parse_price ⦃fl⦄ value =
    if is_empty value
    then ok fl.zero_float
    else fl.parse_float (remove_byte b',' (trim_currency (trim_space value)))

-- The text of a `*strconv.NumError` of `Atoi`.
unfoldable pub num_error : ⦃U : Unicode⦄ → Bytes → NumError → Error
num_error ⦃U⦄ s syntax =
    plain (codes "strconv.Atoi: parsing " ++ U.quote s ++ codes ": invalid syntax")
num_error ⦃U⦄ s range =
    plain (codes "strconv.Atoi: parsing " ++ U.quote s ++ codes ": value out of range")

module _ ⦃U : Unicode⦄ where
  -- `nil` is `none`.
  unfoldable pub validate_ram : Bytes → Option Error
  unfolding ram_pattern
  validate_ram value =
      if is_empty value
      then none
      else if not (is_some (ram_pattern value))
      then some (plain (codes "invalid ram value: " ++ U.quote value))
      else none

  unfoldable pub validate_hdd : Bytes → Option Error
  unfolding hdd_pattern
  validate_hdd value =
      if is_empty value
      then none
      else if not (is_some (hdd_pattern value))
      then some (plain (codes "invalid hdd value: " ++ U.quote value))
      else none

  unfoldable pub int_of : Bytes → Result Error ℤ
  int_of s = map_err (num_error s) (atoi s)

  unfoldable pub parse_ram : Bytes → Result Error ℤ
  unfolding int_of
  parse_ram value = elim (ram_pattern (trim_space value)) [
    | none ↦ err (plain (codes "invalid ram format: " ++ U.quote value))
    | some digits ↦ int_of digits
  ]

  unfoldable pub normalize_disk_type : Bytes → Bytes
  normalize_disk_type raw = reverse (after_digits (reverse (to_upper (trim_space raw))))

  -- what `ParseHDD` does with the parts of a match
  unfoldable pub hdd_total : HddMatch → Result Error (ℤ × Bytes)
  unfolding int_of
  hdd_total m = do
    count ← int_of m.count
    size ← int_of m.size
    let total = mul_int count size
    ok (
      if equal_fold m.unit (codes "TB") then mul_int total (pos 1024) else total,
      normalize_disk_type m.label,
    )

  unfoldable pub parse_hdd : Bytes → Result Error (ℤ × Bytes)
  unfolding hdd_total
  parse_hdd value = elim (hdd_pattern (trim_space value)) [
    | none ↦ err (plain (codes "invalid hdd format: " ++ U.quote value))
    | some m ↦ hdd_total m
  ]

  unfoldable pub ram_family : Bytes → Bytes
  ram_family raw = elim (ram_family_pattern raw) [
    | some m ↦ to_upper m
    | none ↦ to_upper (trim_space raw)
  ]

  unfoldable pub parse_storage_value : Bytes → Result Error ℤ
  unfolding int_of
  parse_storage_value value =
      if is_empty value || equal_fold value (codes "0")
      then ok (pos 0)
      else elim (cut_suffix (trim_space value) (codes "TB")) [
        | some parts ↦ int_of parts >>= λ amount. ok (mul_int amount (pos 1024))
        | none ↦ elim (cut_suffix (trim_space value) (codes "GB")) [
          | some parts ↦ int_of parts
          | none ↦ err (plain (codes "invalid storage unit: " ++ U.quote value))
        ]
      ]
