-- ===== src/Tests/FixtureRuns.antt =====
-- The sample catalog, parsed and indexed.
use leasewebassignment.Base.{ℕ, List, [], ◌∷◌, map, ◌≡◌, refl, ◌==◌, if◌then◌else◌, ok, err}
use leasewebassignment.Base.Int.{ℤ, pos, pos_part, mul_int}
use leasewebassignment.Text.{Bytes, codes, same}
use leasewebassignment.Text.Case.{equal_fold, to_upper, upper_byte}
use leasewebassignment.Text.Decimal.{atoi, digits, after_digits}
use leasewebassignment.Text.Space.{trim_space}
use leasewebassignment.Errors.{plain}
use leasewebassignment.Model.{
  Server, Floats, parse_price, parse_hdd, ram_family, normalize_disk_type,
}
use leasewebassignment.Model.Pattern.{
  ram_family_pattern, number, after_spaces, gb_pattern, hdd_pattern,
}
use leasewebassignment.Store.{new_indexed_server}
use leasewebassignment.Service.{
  CsvReader, parse_csv, parse_table, parse_rows, parse_row, check_header,
}
use leasewebassignment.Fixtures.{sample_servers_csv, sample_servers}
use leasewebassignment.Tests.Parts.{plain_unicode}

without_dots : Bytes → Bytes
without_dots [] = []
without_dots (c ∷ s) = let rest = without_dots s in if c == b'.' then rest else c ∷ rest

-- Prices in hundredths
instance abbrev cents : Floats ℕ
unfolding without_dots atoi
cents = record {
  zero_float = 0;
  parse_float = λ s. elim (atoi (without_dots s)) [
    | ok z ↦ ok (pos_part z)
    | err _ ↦ err (plain (codes "syntax"))
  ];
}

-- The fields of a file without quotes: the first field, the rest of its line, and the lines behind.
abbrev add_byte :
    ℕ → Bytes × List Bytes × List (List Bytes) → Bytes × List Bytes × List (List Bytes)
add_byte c (field, fields, lines) =
    if c == b'\n'
    then ([], [], (field ∷ fields) ∷ lines)
    else if c == b','
    then ([], field ∷ fields, lines)
    else (c ∷ field, fields, lines)

split_fields : Bytes → Bytes × List Bytes × List (List Bytes)
split_fields [] = ([], [], [])
split_fields (c ∷ s) = add_byte c (split_fields s)

-- Empty lines are skipped.
full_lines : List (List Bytes) → List (List Bytes)
full_lines [] = []
full_lines ((([]) ∷ []) ∷ lines) = full_lines lines
full_lines (line ∷ lines) = line ∷ full_lines lines

abbrev read_lines : CsvReader
read_lines content =
    let (field, fields, lines) = split_fields content in ok (full_lines ((field ∷ fields) ∷ lines))

-- The file holds the servers.
sample_parsed : parse_csv read_lines sample_servers_csv ≡ ok (sample_servers (λ n. n))
unfolding parse_csv parse_table parse_rows parse_row check_header parse_price split_fields
    full_lines same trim_space without_dots atoi
sample_parsed = refl

-- What the index has of a server: the family, the storage in gigabytes, and the type of the disks.
abbrev derived : Server ℕ → Bytes × ℤ × Bytes
derived s = let idx = new_indexed_server s in (idx.ram_family, idx.total_storage_gb, idx.disk_type)

sample_derived :
    map derived (sample_servers (λ n. n))
    ≡ (codes "16GB", pos 4096, codes "SATA")
      ∷ (codes "32GB", pos 16384, codes "SATA")
      ∷ (codes "128GB", pos 1920, codes "SSD")
      ∷ (codes "64GB", pos 8192, codes "SATA")
      ∷ (codes "32GB", pos 2400, codes "SAS")
      ∷ (codes "64GB", pos 240, codes "SSD")
      ∷ (codes "4GB", pos 4096, codes "SATA")
      ∷ (codes "16GB", pos 1000, codes "SATA")
      ∷ (codes "64GB", pos 16384, codes "SATA")
      ∷ (codes "32GB", pos 24576, codes "SATA")
      ∷ []
unfolding new_indexed_server parse_hdd ram_family normalize_disk_type trim_space to_upper upper_byte
    atoi ram_family_pattern number digits after_spaces gb_pattern after_digits hdd_pattern
    equal_fold mul_int
sample_derived = refl
