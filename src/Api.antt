-- ===== src/Api.antt =====
-- `MapError`: the status and the body of the response to an error. (internal/api/errors.go)
pub mod Mapping
use leasewebassignment.Base.{
  ℕ, zero, suc, ◌+◌, Bool, true, false, Option, none, some, [], if◌then◌else◌,
}
use leasewebassignment.Text.{Bytes, codes}
use leasewebassignment.Errors.{
  Error, ApiError, plain, not_exist, max_bytes, wrapped, api_error, csv_parse_error, service_error,
  store_error, message, status_code, not_found, internal_error, csv_validation_error,
}

-- `errors.As(err, &apiErr)`: the first `*APIError` of the chain
unfoldable pub as_api : Error → Option ApiError
as_api (plain s) = none
as_api (not_exist s) = none
as_api (max_bytes n) = none
as_api (wrapped e s) = as_api e
as_api (api_error a) = some a
as_api (csv_parse_error row column reason e) = as_api e
as_api (service_error op e) = as_api e
as_api (store_error op e) = as_api e

-- `errors.As(err, &csvErr)`: the first `*CSVParseError`
unfoldable pub as_csv : Error → Option Error
as_csv (plain s) = none
as_csv (not_exist s) = none
as_csv (max_bytes n) = none
as_csv (wrapped e s) = as_csv e
as_csv (api_error a) = none
as_csv (csv_parse_error row column reason e) = some (csv_parse_error row column reason e)
as_csv (service_error op e) = as_csv e
as_csv (store_error op e) = as_csv e

-- `errors.Is(err, os.ErrNotExist)`
unfoldable pub is_not_exist : Error → Bool
is_not_exist (plain s) = false
is_not_exist (not_exist s) = true
is_not_exist (max_bytes n) = false
is_not_exist (wrapped e s) = is_not_exist e
is_not_exist (api_error a) = false
is_not_exist (csv_parse_error row column reason e) = is_not_exist e
is_not_exist (service_error op e) = is_not_exist e
is_not_exist (store_error op e) = is_not_exist e

-- `svcErr.Err` after `errors.As(err, &svcErr)`
unfoldable pub as_service : Error → Option Error
as_service (plain s) = none
as_service (not_exist s) = none
as_service (max_bytes n) = none
as_service (wrapped e s) = as_service e
as_service (api_error a) = none
as_service (csv_parse_error row column reason e) = as_service e
as_service (service_error op e) = some e
as_service (store_error op e) = as_service e

-- `storeErr.Err` after `errors.As(err, &storeErr)`
unfoldable pub as_store : Error → Option Error
as_store (plain s) = none
as_store (not_exist s) = none
as_store (max_bytes n) = none
as_store (wrapped e s) = as_store e
as_store (api_error a) = none
as_store (csv_parse_error row column reason e) = as_store e
as_store (service_error op e) = as_store e
as_store (store_error op e) = some e

-- The errors in a chain.
unfoldable pub depth : Error → ℕ
depth (plain s) = 1
depth (not_exist s) = 1
depth (max_bytes n) = 1
depth (wrapped e s) = suc (depth e)
depth (api_error a) = 1
depth (csv_parse_error row column reason e) = suc (depth e)
depth (service_error op e) = suc (depth e)
depth (store_error op e) = suc (depth e)

-- The recursion of `MapError`, which goes on with a part of the chain, on fuel.
unfoldable pub map_error_from : ℕ → Error → ℕ × ApiError
map_error_from zero e = (500, internal_error (codes "internal server error") (message e))
map_error_from (suc fuel) e = elim (as_api e) [
  | some a ↦ (status_code a, a)
  | none ↦ elim (as_csv e) [
    | some c ↦ (400, csv_validation_error (codes "invalid csv payload") (message c))
    | none ↦ elim (is_not_exist e) [
      | true ↦ (404, not_found (codes "resource not found") (message e))
      | false ↦ elim (as_service e) [
        | some cause ↦ map_error_from fuel cause
        | none ↦ elim (as_store e) [
          | some cause ↦ map_error_from fuel cause
          | none ↦ (500, internal_error (codes "internal server error") (message e))
        ]
      ]
    ]
  ]
]

-- `MapError`; a nil error is `none`. The depth of the chain is fuel enough.
unfoldable pub map_error : Option Error → ℕ × ApiError
unfolding map_error_from
map_error none = (200, record { code = []; message = []; details = []; status = 0 })
map_error (some e) = map_error_from (depth e) e
