-- ===== src/Handlers/Request.antt =====
-- The end of the request builder: paging, `Build` and `ToFilter`.
-- (internal/server/handlers/filter.go, internal/server/handlers/servers.go)
use leasewebassignment.Base.{not, List, [], ◌∷◌, ◌++◌, if◌then◌else◌, Result, ok, err}
use leasewebassignment.Base.Int.{ℤ, pos, ltb_ℤ}
use leasewebassignment.Text.{Bytes, codes, is_empty, join}
use leasewebassignment.Text.Case.{Unicode}
use leasewebassignment.Text.Decimal.{atoi}
use leasewebassignment.Errors.{Error, api_error, invalid_input}
use leasewebassignment.Model.{ServerFilter}
use leasewebassignment.Handlers.{
  Builder, GetServersRequest, default_limit, get, max_limit, with_disk_type, with_location,
  with_model, with_ram, with_storage_max, with_storage_min,
}

module _ ⦃U : Unicode⦄ where
  -- The value of a parameter that is an `int`, and what is wrong with it, if anything.
  unfoldable pub read_limit : Bytes → ℤ × List Bytes
  read_limit raw = if is_empty raw then (pos default_limit, []) else elim (atoi raw) [
    | err _ ↦ (
      pos default_limit,
      (codes "limit: " ++ U.quote raw ++ codes " must be a positive integer") ∷ [],
    )
    | ok parsed ↦
        if ltb_ℤ parsed (pos 1)
        then (
          pos default_limit,
          (codes "limit: " ++ U.quote raw ++ codes " must be a positive integer") ∷ [],
        )
        else if ltb_ℤ (pos max_limit) parsed
        then (pos max_limit, [])
        else (parsed, [])
  ]

  unfoldable pub read_offset : Bytes → ℤ × List Bytes
  read_offset raw = if is_empty raw then (pos 0, []) else elim (atoi raw) [
    | err _ ↦
        (pos 0, (codes "offset: " ++ U.quote raw ++ codes " must be a non-negative integer") ∷ [])
    | ok parsed ↦
        if ltb_ℤ parsed (pos 0)
        then (
          pos 0,
          (codes "offset: " ++ U.quote raw ++ codes " must be a non-negative integer") ∷ [],
        )
        else (parsed, [])
  ]

  unfoldable pub with_pagination : Builder → Builder
  with_pagination b =
      let (limit, limit_errs) = read_limit (get b.values (codes "limit")) in
      let (offset, offset_errs) = read_offset (get b.values (codes "offset")) in
      record b {
        request = record b.request { limit = limit; offset = offset };
        errs = b.errs ++ (limit_errs ++ offset_errs);
      }

unfoldable pub build : Builder → Result Error GetServersRequest
build b =
    if not (is_empty b.errs)
    then err
        (api_error (invalid_input (codes "invalid query parameters") (join b.errs (codes "; "))))
    else ok b.request

unfoldable pub to_filter : GetServersRequest → ServerFilter
to_filter r = record {
  model = r.model;
  ram = r.ram;
  location = r.location;
  disk_type = r.disk_type;
  storage_min = r.storage_min;
  storage_max = r.storage_max;
}

-- The chain of calls in the handler, from `WithModel` to `WithPagination`.
unfoldable pub read_query : ⦃U : Unicode⦄ → Builder → Builder
read_query b =
    with_pagination (
      with_storage_max
        (with_storage_min (with_disk_type (with_location (with_ram (with_model b))))))
