-- ===== src/Handlers.antt =====
-- Query parameters, their validation, and paging. (internal/server/handlers/filter.go,
-- internal/server/handlers/contracts.go, internal/server/handlers/handlers.go,
-- internal/server/handlers/servers.go)
pub mod Request
pub mod Upload
pub mod Limits
pub mod Problems
pub mod Query
pub mod Page
pub mod Paging
use leasewebassignment.Base.{
  ℕ, ◌+◌, ◌-◌, Bool, true, false, not, ◌||◌, List, [], ◌∷◌, ◌++◌, map, Option, none, some,
  if◌then◌else◌, Result, ok, err, ◌>>=◌, any, length, take, drop, leb,
}
use leasewebassignment.Base.Int.{ℤ, pos, negsuc, ltb_ℤ, wrap, pos_part}
use leasewebassignment.Text.{Bytes, codes, same, is_empty, join}
use leasewebassignment.Text.Case.{Unicode, equal_fold}
use leasewebassignment.Text.Decimal.{atoi}
use leasewebassignment.Errors.{Error, api_error, message, invalid_input}
use leasewebassignment.Model.{Server, ServerFilter, parse_storage_value}
use leasewebassignment.Store.Files.{FileSystem}
use leasewebassignment.Service.{ServiceState, get_servers}

abbrev pub default_allowed_ram : List Bytes
default_allowed_ram =
    codes "2GB"
    ∷ codes "4GB"
    ∷ codes "8GB"
    ∷ codes "12GB"
    ∷ codes "16GB"
    ∷ codes "24GB"
    ∷ codes "32GB"
    ∷ codes "48GB"
    ∷ codes "64GB"
    ∷ codes "96GB"
    ∷ []

abbrev pub default_allowed_disk_types : List Bytes
default_allowed_disk_types = codes "SAS" ∷ codes "SATA" ∷ codes "SSD" ∷ []

abbrev pub default_limit : ℕ
default_limit = 50

abbrev pub max_limit : ℕ
max_limit = 200

unfoldable pub with_defaults : List Bytes → List Bytes → List Bytes × List Bytes
with_defaults allowed_ram allowed_disk_types = (
  if is_empty allowed_ram then default_allowed_ram else allowed_ram,
  if is_empty allowed_disk_types then default_allowed_disk_types else allowed_disk_types,
)

-- `url.Values`: the parameters in the order of the query.
abbrev pub Values : Type 0
Values = List (Bytes × Bytes)

-- `values[key]`
unfoldable pub values_of : Values → Bytes → List Bytes
unfolding same
values_of [] key = []
values_of ((k, v) ∷ rest) key = if same k key then v ∷ values_of rest key else values_of rest key

-- `values.Get(key)`
unfoldable pub get : Values → Bytes → Bytes
unfolding values_of
get values key = elim (values_of values key) [ [] ↦ [] | v ∷ _ ↦ v ]

pub record GetServersRequest : Type 0 where
  pub model : Bytes
  pub ram : List Bytes
  pub location : Bytes
  pub disk_type : Bytes
  pub storage_min : Option ℤ
  pub storage_max : Option ℤ
  pub limit : ℤ
  pub offset : ℤ

abbrev pub zero_request : GetServersRequest
zero_request = record {
  model = [];
  ram = [];
  location = [];
  disk_type = [];
  storage_min = none;
  storage_max = none;
  limit = pos 0;
  offset = pos 0;
}

pub record Builder : Type 0 where
  pub values : Values
  pub request : GetServersRequest
  pub errs : List Bytes
  pub allowed_ram : List Bytes
  pub allowed_disk_types : List Bytes

unfoldable pub new_builder : Values → List Bytes → List Bytes → Builder
unfolding with_defaults
new_builder values allowed_ram allowed_disk_types =
    let (ram, disk_types) = with_defaults allowed_ram allowed_disk_types in
    record {
      values = values;
      request = zero_request;
      errs = [];
      allowed_ram = ram;
      allowed_disk_types = disk_types;
    }

-- `b.errs = append(b.errs, text)`
abbrev pub complain : Builder → Bytes → Builder
complain b text = record b { errs = b.errs ++ (text ∷ []) }

unfoldable pub with_model : Builder → Builder
with_model b = record b { request = record b.request { model = get b.values (codes "model") } }

unfoldable pub with_location : Builder → Builder
with_location b = record b {
  request = record b.request { location = get b.values (codes "location") };
}

module _ ⦃U : Unicode⦄ where
  unfoldable pub contains_fold : List Bytes → Bytes → Bool
  contains_fold list val = any (λ item. equal_fold item val) list

  -- "<name>: %q is invalid, must be one of: %s"
  abbrev pub not_allowed : Bytes → Bytes → List Bytes → Bytes
  not_allowed name val allowed =
      name
      ++ codes ": "
      ++ U.quote val
      ++ codes " is invalid, must be one of: "
      ++ join allowed (codes ", ")

  -- one round of the loop of `WithRAM`
  unfoldable pub add_ram : Builder → Bytes → Builder
  add_ram b val =
      if is_empty val
      then b
      else if not (contains_fold b.allowed_ram val)
      then complain b (not_allowed (codes "ram") val b.allowed_ram)
      else record b { request = record b.request { ram = b.request.ram ++ (val ∷ []) } }

  unfoldable pub add_rams : Builder → List Bytes → Builder
  add_rams b [] = b
  add_rams b (val ∷ vals) = add_rams (add_ram b val) vals

  unfoldable pub with_ram : Builder → Builder
  with_ram b = add_rams b (values_of b.values (codes "ram"))

  unfoldable pub with_disk_type : Builder → Builder
  with_disk_type b =
      let val = get b.values (codes "disk_type") in
      let b' = record b { request = record b.request { disk_type = val } } in
      if is_empty val
      then b'
      else if not (contains_fold b.allowed_disk_types val)
      then complain b' (not_allowed (codes "disk_type") val b.allowed_disk_types)
      else b'

  unfoldable pub with_storage_min : Builder → Builder
  with_storage_min b =
      let value = get b.values (codes "storage_min") in
      if is_empty value then b else elim (parse_storage_value value) [
        | err e ↦ complain b (codes "storage_min: " ++ message e)
        | ok parsed ↦ record b { request = record b.request { storage_min = some parsed } }
      ]

  unfoldable pub with_storage_max : Builder → Builder
  with_storage_max b =
      let value = get b.values (codes "storage_max") in
      if is_empty value then b else elim (parse_storage_value value) [
        | err e ↦ complain b (codes "storage_max: " ++ message e)
        | ok parsed ↦ record b { request = record b.request { storage_max = some parsed } }
      ]
