-- ===== src/Tests/HandlerRuns.antt =====
-- Queries and pages at concrete values.
use leasewebassignment.Base.{
  [], ◌∷◌, map, take, drop, some, ◌≡◌, refl, arith, if◌then◌else◌, ok, err,
}
use leasewebassignment.Base.Int.{pos, ◌≤ℤ◌}
use leasewebassignment.Text.{codes, same, is_empty, join}
use leasewebassignment.Text.Case.{equal_fold}
use leasewebassignment.Text.Decimal.{atoi}
use leasewebassignment.Errors.{api_error, invalid_input}
use leasewebassignment.Handlers.{
  Values, GetServersRequest, zero_request, new_builder, values_of, with_storage_max, get,
  with_storage_min, with_disk_type, with_location, with_ram, add_rams, with_model, add_ram,
  contains_fold,
}
use leasewebassignment.Handlers.Request.{
  read_query, build, with_pagination, read_limit, read_offset,
}
use leasewebassignment.Handlers.Query.{problems, request_of, build-read_query, build_bounds}
use leasewebassignment.Handlers.Paging.{shown, fetch, fetch_lem}
use leasewebassignment.Tests.Parts.{plain_unicode, whole_floats, dell, supermicro}

abbrev query : Values
query = (codes "ram", codes "16gb") ∷ (codes "limit", codes "500") ∷ []

abbrev bad_query : Values
bad_query = (codes "ram", codes "3GB") ∷ (codes "limit", codes "0") ∷ []

build-read_query_example : build (read_query (new_builder bad_query [] [])) ≡ (
    if is_empty (problems bad_query [] [])
    then ok (request_of bad_query [] [])
    else err (
        api_error (
          invalid_input
            (codes "invalid query parameters")
            (join (problems bad_query [] []) (codes "; ")))))
build-read_query_example = build-read_query bad_query [] []

abbrev accepted : GetServersRequest
accepted = record zero_request { ram = codes "16gb" ∷ []; limit = pos 200 }

build_run : build (read_query (new_builder query [] [])) ≡ ok accepted
unfolding build read_query new_builder values_of same with_pagination with_storage_max get
    with_storage_min with_disk_type with_location with_ram add_rams with_model add_ram contains_fold
    equal_fold read_limit atoi read_offset
build_run = refl

build_bounds_example : (pos 1 ≤ℤ pos 200) × (pos 200 ≤ℤ pos 200) × (pos 0 ≤ℤ pos 0)
build_bounds_example = build_bounds query [] [] build_run

fetch_lem_example :
    fetch 2 1 0 (dell ∷ supermicro ∷ [])
    ≡ some (map shown (take 2 (drop 0 (dell ∷ supermicro ∷ []))))
fetch_lem_example = fetch_lem 2 1 0 (dell ∷ supermicro ∷ []) (omega arith)
