-- ===== src/Tests/ApiRuns.antt =====
-- Responses to errors at concrete values.
use leasewebassignment.Base.{some, ◌≡◌, refl}
use leasewebassignment.Text.{codes}
use leasewebassignment.Errors.{Error, plain, service_error, store_error}
use leasewebassignment.Api.{as_api, as_csv, is_not_exist, map_error}
use leasewebassignment.Api.Mapping.{response_to, below, innermost, internal_response, map_error_lem}

abbrev disk_full : Error
disk_full =
    service_error (codes "upload") (store_error (codes "save_upload") (plain (codes "no space")))

map_error_lem_example : map_error (some disk_full) ≡ response_to disk_full
map_error_lem_example = map_error_lem disk_full

-- Only the innermost cause is told.
response_to_run : response_to disk_full ≡ internal_response (plain (codes "no space"))
unfolding response_to innermost as_api as_csv is_not_exist below
response_to_run = refl
