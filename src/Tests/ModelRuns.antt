-- ===== src/Tests/ModelRuns.antt =====
-- The field formats at concrete values.
use leasewebassignment.Base.{ℕ, ◌*◌, ◌++◌, ◌≡◌, ◌≢◌, refl, inl, arith, ok}
use leasewebassignment.Base.Int.{ℤ, pos, wrap, mul_int}
use leasewebassignment.Text.{codes, same}
use leasewebassignment.Text.Case.{to_upper, equal_fold}
use leasewebassignment.Text.Space.{trim_space}
use leasewebassignment.Text.Decimal.{atoi, digits, after_digits, decimal}
use leasewebassignment.Model.Pattern.{HddMatch, hdd_pattern}
use leasewebassignment.Model.Hdd.{IsHdd, hdd_text}
use leasewebassignment.Model.Capacity.{gigabytes, FitsInt, parse_hdd_iff}
use leasewebassignment.Model.Storage.{parse_storage_value-gb, parse_storage_value_overflow}
use leasewebassignment.Model.{parse_hdd, parse_storage_value, normalize_disk_type, parse_price}
use leasewebassignment.Tests.Parts.{plain_unicode, whole_floats}

parse_hdd_run : parse_hdd (codes " 2x2TBSATA2 ") ≡ ok (pos 4096, codes "SATA")
unfolding parse_hdd hdd_pattern digits trim_space after_digits atoi equal_fold normalize_disk_type
    mul_int to_upper
parse_hdd_run = refl

parse_hdd_iff_example :
    (m : HddMatch) × IsHdd m
    × (trim_space (codes " 2x2TBSATA2 ") ≡ hdd_text m)
    × FitsInt m
    × (pos 4096 ≡ wrap (pos (gigabytes m)))
    × (codes "SATA" ≡ normalize_disk_type m.label)
parse_hdd_iff_example =
    (parse_hdd_iff (codes " 2x2TBSATA2 ") (pos 4096) (codes "SATA")).0 parse_hdd_run

ssd_parts : HddMatch
ssd_parts = record { count = codes "4"; size = codes "480"; unit = codes "GB"; label = codes "SSD" }

ssd_parts-IsHdd : IsHdd ssd_parts
unfolding ssd_parts digits same
ssd_parts-IsHdd = record {
  count_number = (refl, refl);
  size_number = (refl, refl);
  unit_known = inl refl;
  label_ne_nil = refl;
  label_alnum = refl;
}

parse_storage_value-gb_example : parse_storage_value (decimal 250 ++ codes "GB") ≡ ok (pos 250)
parse_storage_value-gb_example = parse_storage_value-gb 250 (omega arith)

parse_storage_value_overflow_example :
    (z : ℤ) × (parse_storage_value (decimal 9007199254740992 ++ codes "TB") ≡ ok z)
    × (z ≢ pos (9007199254740992 * 1024))
parse_storage_value_overflow_example =
    parse_storage_value_overflow 9007199254740992 (omega arith) (omega arith)

parse_price_run : parse_price {F = ℕ} (codes " $1,049 ") ≡ ok 1049
unfolding parse_price trim_space atoi
parse_price_run = refl
