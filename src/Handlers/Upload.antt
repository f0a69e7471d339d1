-- ===== src/Handlers/Upload.antt =====
-- The reading of an upload request. (internal/server/handlers/filter.go)
use leasewebassignment.Base.{
  ℕ, ltb, length, take, ◌++◌, Option, none, some, if◌then◌else◌, Result, ok, err,
}
use leasewebassignment.Text.{Bytes, codes, is_empty}
use leasewebassignment.Text.Decimal.{decimal}
use leasewebassignment.Errors.{
  Error, ApiError, plain, not_exist, max_bytes, wrapped, api_error, csv_parse_error, service_error,
  store_error, message, invalid_input, request_too_large,
}

-- What the reader of a request body gives: its bytes, and the error that stands in place of its end,
-- if any.
pub record RequestBody : Type 0 where
  pub bytes : Bytes
  pub failed : Option Error

-- `http.MaxBytesReader`, without the end of the connection that it asks for
unfoldable pub max_bytes_reader : ℕ → RequestBody → RequestBody
max_bytes_reader limit body =
    if ltb limit (length body.bytes)
    then record { bytes = take limit body.bytes; failed = some (max_bytes limit) }
    else body

-- The file of a form: its name, and what `io.ReadAll` makes of it.
pub record FormFile : Type 0 where
  pub filename : Bytes
  pub content : Result Error Bytes

-- A request body as package net/http reads it: the error of `ParseMultipartForm`, if any, and what
-- `FormFile("file")` then gives. The header that it gives with a file is never nil.
pub record Form : Type 0 where
  pub parse_failed : Option Error
  pub file : Result Error FormFile

-- `errors.As(err, &tooLarge)`: the limit of the first `*http.MaxBytesError`
unfoldable pub as_max_bytes : Error → Option ℕ
as_max_bytes (plain s) = none
as_max_bytes (not_exist s) = none
as_max_bytes (max_bytes n) = some n
as_max_bytes (wrapped e s) = as_max_bytes e
as_max_bytes (api_error a) = none
as_max_bytes (csv_parse_error row column reason e) = as_max_bytes e
as_max_bytes (service_error op e) = as_max_bytes e
as_max_bytes (store_error op e) = as_max_bytes e

-- what `NewUploadServerRequest` makes of the error of `ParseMultipartForm`
unfoldable pub form_error : Error → ApiError
form_error e = elim (as_max_bytes e) [
  | some limit ↦
      request_too_large (codes "upload too large")
        (codes "request body exceeds the " ++ decimal limit ++ codes " byte limit")
  | none ↦ invalid_input (codes "invalid multipart payload") (message e)
]

unfoldable pub new_upload_server_request : Form → Result Error FormFile
new_upload_server_request form = elim form.parse_failed [
  | some e ↦ err (api_error (form_error e))
  | none ↦ elim form.file [
    | err e ↦ err (api_error (invalid_input (codes "missing file field") (message e)))
    | ok file ↦
        if is_empty file.filename
        then err (
            api_error (
              invalid_input (codes "upload filename required")
                (codes "form field 'file' must contain a filename")))
        else ok file
  ]
]
