-- ===== src/Tests/StoreRuns.antt =====
-- The repository at concrete values.
use leasewebassignment.Base.{
  ℕ, Bool, true, false, [], ◌∷◌, keep, none, some, ◌≡◌, refl, ◌↔◌, ok, err, if◌then◌else◌,
}
use leasewebassignment.Base.Int.{pos, mul_int}
use leasewebassignment.Text.{Bytes, codes, same, contains, contains_string}
use leasewebassignment.Text.Case.{lower_byte, to_upper, to_lower, equal_fold}
use leasewebassignment.Text.Space.{trim_space}
use leasewebassignment.Errors.{plain}
use leasewebassignment.Model.{Server, ServerFilter, ram_family, parse_hdd, normalize_disk_type}
use leasewebassignment.Model.Pattern.{
  ram_family_pattern, number, after_spaces, gb_pattern, hdd_pattern,
}
use leasewebassignment.Text.Decimal.{digits, after_digits, atoi}
use leasewebassignment.Store.{
  MemoryRepository, new_indexed_server, prepare_filter, matches_filter, string_matches,
  list_servers,
}
use leasewebassignment.Store.Matching.{Matches, matches_filter_iff}
use leasewebassignment.Store.Catalog.{catalog, no_filter, list_servers-catalog}
use leasewebassignment.Store.Files.{FileSystem, SameBut}
use leasewebassignment.Store.Path.{base, join_path}
use leasewebassignment.Store.Upload.{save_upload, save_error}
use leasewebassignment.Store.Atomic.{stored_path}
use leasewebassignment.Store.Durable.{save_upload_ok, save_upload_err}
use leasewebassignment.Tests.Parts.{
  plain_unicode, whole_floats, memory_disk, memory_disk_lawful, empty_disk, dell, supermicro,
  empty_repository,
}

abbrev sata : ServerFilter
sata = record no_filter {
  ram = codes "16GB" ∷ codes "4GB" ∷ [];
  location = codes "amsterdam";
  disk_type = codes "sata";
  storage_min = some (pos 4096);
}

matches_filter_run : matches_filter (new_indexed_server dell) (prepare_filter sata) ≡ true
unfolding matches_filter new_indexed_server prepare_filter trim_space to_lower contains
    contains_string equal_fold ram_family to_upper same ram_family_pattern number digits
    after_spaces gb_pattern after_digits string_matches lower_byte parse_hdd hdd_pattern atoi
    normalize_disk_type mul_int
matches_filter_run = refl

matches_filter_iff_example : Matches dell sata
matches_filter_iff_example = (matches_filter_iff dell sata).0 matches_filter_run

abbrev two_servers : MemoryRepository ℕ
two_servers = record empty_repository {
  servers = new_indexed_server dell ∷ new_indexed_server supermicro ∷ [];
}

list_servers-catalog_example :
    (test : Server ℕ → Bool) × ((s : Server ℕ) → (test s ≡ true) ↔ Matches s sata)
    × (list_servers (some two_servers) sata ≡ ok (keep test (catalog two_servers)))
unfolding new_indexed_server
list_servers-catalog_example = list_servers-catalog two_servers sata (refl, (refl, tt))

abbrev disk : FileSystem
disk = memory_disk false

abbrev broken_disk : FileSystem
broken_disk = memory_disk true

abbrev name : Bytes
name = codes "a.csv"

save_upload_run :
    (save_upload disk (some empty_repository) name (codes "x") empty_disk).1 ≡ ok (codes "up/a.csv")
unfolding save_upload base join_path same
save_upload_run = refl

save_upload_ok_example :
    (codes "up/a.csv" ≡ stored_path empty_repository name)
    × (disk.content
          (save_upload disk (some empty_repository) name (codes "x") empty_disk).0
          (codes "up/a.csv")
        ≡ some (codes "x"))
    × SameBut disk
        (codes "up/a.csv")
        empty_disk
        (save_upload disk (some empty_repository) name (codes "x") empty_disk).0
save_upload_ok_example =
    save_upload_ok disk (memory_disk_lawful false) empty_repository name (codes "x") empty_disk
      (codes "up/a.csv") save_upload_run

-- a disk with one file
abbrev one_file : broken_disk.State
one_file path = if same path (codes "up/b.csv") then some (codes "y") else none

broken_run :
    (save_upload broken_disk (some empty_repository) name (codes "x") one_file).1
    ≡ err (save_error (plain (codes "rename")))
unfolding save_upload base join_path same
broken_run = refl

save_upload_err_example :
    broken_disk.content
      (save_upload broken_disk (some empty_repository) name (codes "x") one_file).0
      (codes "up/b.csv")
    ≡ some (codes "y")
unfolding same
save_upload_err_example =
    save_upload_err broken_disk (memory_disk_lawful true) empty_repository name (codes "x") one_file
      (save_error (plain (codes "rename"))) broken_run (codes "up/b.csv") (codes "y") refl
