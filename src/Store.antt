-- ===== src/Store.antt =====
-- The catalog in memory and the evaluation of filters. (internal/store/store.go,
-- internal/store/memory_repo.go, internal/store/config.go)
pub mod Path
pub mod Files
pub mod Matching
pub mod Catalog
pub mod Upload
pub mod Atomic
pub mod Durable
use leasewebassignment.Base.{
  ℕ, Bool, true, false, not, ◌&&◌, ◌||◌, List, [], ◌∷◌, ◌++◌, map, Option, none, some,
  if◌then◌else◌, Result, ok, err, keep,
}
use leasewebassignment.Base.Int.{ℤ, pos, ltb_ℤ}
use leasewebassignment.Text.{Bytes, codes, is_empty, contains, contains_string}
use leasewebassignment.Text.Case.{Unicode, to_lower, equal_fold}
use leasewebassignment.Text.Space.{trim_space}
use leasewebassignment.Errors.{Error, plain, store_error}
use leasewebassignment.Model.{Server, ServerFilter, parse_hdd, ram_family}
use Path.{join_path, base}

pub record IndexedServer {ℓ} (F : Type ℓ) : Type ℓ where
  pub server : Server F
  pub total_storage_gb : ℤ
  pub disk_type : Bytes
  pub ram_family : Bytes

pub record PreparedFilter : Type 0 where
  pub model : Bytes
  pub location : Bytes
  pub disk_type : Bytes
  pub ram_families : List Bytes
  pub storage_min : Option ℤ
  pub storage_max : Option ℤ

-- `memoryRepository`; the mutex makes each method one step.
pub record MemoryRepository {ℓ} (F : Type ℓ) : Type ℓ where
  pub servers : List (IndexedServer F)
  pub upload_dir : Bytes

abbrev pub uninitialized : Error
uninitialized = plain (codes "repository uninitialized")

abbrev pub source_path_required : Error
source_path_required = plain (codes "source path required")

unfoldable pub new_memory_repository {ℓ} : {F : Type ℓ} → Bytes → MemoryRepository F
unfolding join_path
new_memory_repository upload_dir = record {
  servers = [];
  upload_dir =
      if is_empty upload_dir then join_path (codes "data" ∷ codes "uploads" ∷ []) else upload_dir;
}

-- `RepositoryConfig` and `NewRepository`
pub record RepositoryConfig : Type 0 where
  pub upload_dir : Bytes

abbrev pub new_repository {ℓ} : {F : Type ℓ} → RepositoryConfig → MemoryRepository F
new_repository cfg = new_memory_repository cfg.upload_dir

-- `filter.storageMin != nil && total < *filter.storageMin`
abbrev pub below_min : Option ℤ → ℤ → Bool
below_min none total = false
below_min (some least) total = ltb_ℤ total least

abbrev pub above_max : Option ℤ → ℤ → Bool
above_max none total = false
above_max (some most) total = ltb_ℤ most total

module _ ⦃U : Unicode⦄ where
  -- `idx.totalStorageGB` and `idx.diskType`, which stay zero values where there is no HDD value or
  -- it does not parse.
  unfoldable pub indexed_hdd : Bytes → ℤ × Bytes
  indexed_hdd hdd =
      if not (is_empty hdd)
      then elim (parse_hdd hdd) [ ok (total, disk_type) ↦ (total, disk_type) | err _ ↦ (pos 0, []) ]
      else (pos 0, [])

  unfoldable pub new_indexed_server {ℓ} : {F : Type ℓ} → Server F → IndexedServer F
  unfolding indexed_hdd
  new_indexed_server s =
      let (total, disk_type) = indexed_hdd s.hdd in
      record {
        server = s;
        total_storage_gb = total;
        disk_type = disk_type;
        ram_family = ram_family s.ram;
      }

  unfoldable pub prepare_filter : ServerFilter → PreparedFilter
  prepare_filter f = record {
    model = f.model;
    location = f.location;
    disk_type = f.disk_type;
    ram_families = map ram_family f.ram;
    storage_min = f.storage_min;
    storage_max = f.storage_max;
  }

  unfoldable pub string_matches : Bytes → Bytes → Bool
  string_matches value filter =
      contains (to_lower (trim_space value)) (to_lower (trim_space filter))

  unfoldable pub matches_filter {ℓ} : {F : Type ℓ} → IndexedServer F → PreparedFilter → Bool
  matches_filter idx filter =
      let s = idx.server in
      if not (is_empty filter.model) && not (string_matches s.model filter.model)
      then false
      else if not (is_empty filter.ram_families)
          && not (contains_string filter.ram_families idx.ram_family)
      then false
      else if not (is_empty filter.location) && not (string_matches s.location filter.location)
      then false
      else if not (is_empty filter.disk_type) && not (equal_fold filter.disk_type idx.disk_type)
      then false
      else if below_min filter.storage_min idx.total_storage_gb
      then false
      else if above_max filter.storage_max idx.total_storage_gb
      then false
      else true

  -- A nil receiver is `none`.
  unfoldable pub list_servers {ℓ} :
      {F : Type ℓ} → Option (MemoryRepository F) → ServerFilter → Result Error (List (Server F))
  list_servers none filter = err (store_error (codes "list") uninitialized)
  list_servers (some r) filter =
      let pf = prepare_filter filter in
      ok (map (λ idx. idx.server) (keep (λ idx. matches_filter idx pf) r.servers))

  unfoldable pub replace_servers {ℓ} :
      {F : Type ℓ}
      → Option (MemoryRepository F)
      → List (Server F)
      → Result Error (MemoryRepository F)
  replace_servers none servers = err (store_error (codes "replace") uninitialized)
  replace_servers (some r) servers = ok (record r { servers = map new_indexed_server servers })
