-- ===== src/Handlers/Page.antt =====
-- A page of the result, and the handler of GET /v1/servers. (internal/server/handlers/contracts.go,
-- internal/server/handlers/servers.go)
use leasewebassignment.Base.{
  ◌-◌, ◌||◌, List, map, Option, none, some, if◌then◌else◌, Result, ok, err, length, take, drop,
}
use leasewebassignment.Base.Int.{ℤ, pos, ltb_ℤ, add_int, pos_part}
use leasewebassignment.Text.{Bytes}
use leasewebassignment.Text.Case.{Unicode}
use leasewebassignment.Errors.{Error}
use leasewebassignment.Model.{Server}
use leasewebassignment.Store.Files.{FileSystem}
use leasewebassignment.Service.{ServiceState, get_servers}
use leasewebassignment.Handlers.{with_defaults, Values, new_builder}
use leasewebassignment.Handlers.Request.{read_query, build, to_filter}

pub record ServerResponse {ℓ} (F : Type ℓ) : Type ℓ where
  pub model : Bytes
  pub ram : Bytes
  pub hdd : Bytes
  pub location : Bytes
  pub price : F

pub record PaginationMeta : Type 0 where
  pub total : ℤ
  pub limit : ℤ
  pub offset : ℤ

pub record ServersResponse {ℓ} (F : Type ℓ) : Type ℓ where
  pub page : List (ServerResponse F)
  pub meta : PaginationMeta

-- `xs[lo:hi]`; `none` is a panic.
unfoldable pub slice {ℓ} : {A : Type ℓ} → List A → ℤ → ℤ → Option (List A)
slice xs lo hi =
    if ltb_ℤ lo (pos 0) || ltb_ℤ hi lo || ltb_ℤ (pos (length xs)) hi
    then none
    else some (take (pos_part hi - pos_part lo) (drop (pos_part lo) xs))

module _ {ℓ} {F : Type ℓ} where
  unfoldable pub map_server_response : Server F → ServerResponse F
  map_server_response s = record {
    model = s.model;
    ram = s.ram;
    hdd = s.hdd;
    location = s.location;
    price = s.price;
  }

  -- `none` is a panic.
  unfoldable pub map_servers_response : List (Server F) → ℤ → ℤ → Option (ServersResponse F)
  map_servers_response servers limit offset =
      let total = pos (length servers) in
      let start = if ltb_ℤ total offset then total else offset in
      let past = add_int start limit in
      let end = if ltb_ℤ total past then total else past in
      elim (slice servers start end) [
        | none ↦ none
        | some page ↦ some (record {
          page = map map_server_response page;
          meta = record { total = total; limit = limit; offset = offset };
        })
      ]

-- How a handler ends.
pub data Outcome {ℓ} (A : Type ℓ) : Type ℓ where
  panics : Outcome A
  returns : Result Error A → Outcome A

abbrev pub outcome_of {ℓ} : {A : Type ℓ} → Option A → Outcome A
outcome_of none = panics
outcome_of (some a) = returns (ok a)

-- `Handler.AllowedRAM` and `Handler.AllowedDiskTypes`
pub record Allowed : Type 0 where
  pub ram : List Bytes
  pub disk_types : List Bytes

-- `NewHandler`, of the two lists that it is configured with
unfoldable pub new_handler : Allowed → Allowed
new_handler cfg =
    let (ram, disk_types) = with_defaults cfg.ram cfg.disk_types in
    record { ram = ram; disk_types = disk_types }

-- `Handler.GetServers`: the body of the response.
unfoldable pub handle_get_servers {ℓ} :
    (fs : FileSystem) {F : Type ℓ} ⦃U : Unicode⦄
    → Allowed
    → ServiceState fs F
    → Values
    → Outcome (ServersResponse F)
handle_get_servers fs allowed st values =
    elim (build (read_query (new_builder values allowed.ram allowed.disk_types))) [
      | err e ↦ returns (err e)
      | ok req ↦ elim (get_servers fs st (to_filter req)) [
        | err e ↦ returns (err e)
        | ok servers ↦ outcome_of (map_servers_response servers req.limit req.offset)
      ]
    ]
