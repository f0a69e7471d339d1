-- ===== src/Errors.antt =====
-- Errors as values: `httperr.APIError` and its constructors, `service.CSVParseError`,
-- `service.ServiceError`, `store.StoreError`, and what the other packages return, with the text
-- that each `Error()` gives. (internal/platform/httperr/httperr.go, internal/service/errors.go,
-- internal/store/errors.go)
use leasewebassignment.Base.{ℕ, ◌++◌, Option, none, some, ltb, ◌==◌, if◌then◌else◌}
use leasewebassignment.Text.{Bytes, codes}
use leasewebassignment.Text.Decimal.{decimal}

pub record ApiError : Type 0 where
  pub code : Bytes
  pub message : Bytes
  pub details : Bytes
  pub status : ℕ

-- An error and what it wraps. `os.ErrNotExist` is told apart from other errors of the system, since
-- the program asks for it; `http.MaxBytesError` for the same reason.
pub data Error : Type 0 where
  -- `errors.New`, `fmt.Errorf` without `%w`, and errors of other packages
  plain : Bytes → Error
  -- an error for which `errors.Is(err, os.ErrNotExist)` holds
  not_exist : Bytes → Error
  -- `*http.MaxBytesError`
  max_bytes : ℕ → Error
  -- `fmt.Errorf("%w…", err)`, with the text behind that of `err`
  wrapped : Error → Bytes → Error
  api_error : ApiError → Error
  -- `CSVParseError`, with its row, column, reason and cause
  csv_parse_error : ℕ → Bytes → Bytes → Error → Error
  -- `ServiceError` and `StoreError`, with the operation and the cause
  service_error : Bytes → Error → Error
  store_error : Bytes → Error → Error

-- `err.Error()`
unfoldable pub message : Error → Bytes
message (plain s) = s
message (not_exist s) = s
message (max_bytes limit) = codes "http: request body too large"
message (wrapped e s) = message e ++ s
message (api_error a) = a.message
message (csv_parse_error row column reason e) =
    let tail = codes "column=" ++ column ++ codes " reason=" ++ reason ++ codes ": " ++ message e in
    if ltb 0 row
    then codes "csv parse row=" ++ decimal row ++ codes " " ++ tail
    else codes "csv parse " ++ tail
message (service_error op e) = codes "service " ++ op ++ codes ": " ++ message e
message (store_error op e) = codes "store " ++ op ++ codes ": " ++ message e

-- `errors.Unwrap(err)`
unfoldable pub unwrap : Error → Option Error
unwrap (wrapped e s) = some e
unwrap (csv_parse_error row column reason e) = some e
unwrap (service_error op e) = some e
unwrap (store_error op e) = some e
unwrap _ = none

-- `(*APIError).StatusCode`, of an error that is not nil
unfoldable pub status_code : ApiError → ℕ
status_code e = if e.status == 0 then 500 else e.status

unfoldable pub new_api_error : Bytes → Bytes → ℕ → Bytes → ApiError
new_api_error code message status details = record {
  code = code;
  message = message;
  details = details;
  status = status;
}

unfoldable pub bad_request : Bytes → Bytes → ApiError
unfolding new_api_error
bad_request message details = new_api_error (codes "bad_request") message 400 details

unfoldable pub invalid_input : Bytes → Bytes → ApiError
unfolding new_api_error
invalid_input message details = new_api_error (codes "invalid_input") message 400 details

unfoldable pub unauthorized : Bytes → Bytes → ApiError
unfolding new_api_error
unauthorized message details = new_api_error (codes "unauthorized") message 401 details

unfoldable pub not_found : Bytes → Bytes → ApiError
unfolding new_api_error
not_found message details = new_api_error (codes "not_found") message 404 details

unfoldable pub method_not_allowed : Bytes → Bytes → ApiError
unfolding new_api_error
method_not_allowed message details = new_api_error (codes "method_not_allowed") message 405 details

unfoldable pub request_too_large : Bytes → Bytes → ApiError
unfolding new_api_error
request_too_large message details = new_api_error (codes "request_too_large") message 413 details

unfoldable pub internal_error : Bytes → Bytes → ApiError
unfolding new_api_error
internal_error message details = new_api_error (codes "internal_error") message 500 details

unfoldable pub csv_validation_error : Bytes → Bytes → ApiError
unfolding new_api_error
csv_validation_error message details =
    new_api_error (codes "csv_validation_error") message 400 details

unfoldable pub service_unavailable : Bytes → Bytes → ApiError
unfolding new_api_error
service_unavailable message details =
    new_api_error (codes "service_unavailable") message 503 details
