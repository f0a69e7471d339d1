-- ===== src/Adapter.antt =====
-- From the result of a handler to a response. (internal/server/handlers/adapters.go,
-- internal/api/errors.go)
pub mod Caching
pub mod Headers
pub mod Bodies
use leasewebassignment.Base.{
  ℕ, Bool, true, false, not, ◌||◌, ◌&&◌, List, [], ◌∷◌, ◌++◌, reverse, Option, none, some,
  if◌then◌else◌, leb, Result, ok, err,
}
use leasewebassignment.Text.{Bytes, codes, same, is_empty, cut_prefix}
use leasewebassignment.Text.Decimal.{decimal}
use leasewebassignment.Errors.{
  Error, ApiError, plain, not_exist, max_bytes, wrapped, api_error, csv_parse_error, service_error,
  store_error, message, invalid_input, request_too_large,
}
use leasewebassignment.Api.{map_error}
use leasewebassignment.Wire.{Action, set_header, write_header, write}
use leasewebassignment.Middleware.{error_actions}
use leasewebassignment.Handlers.Page.{ServersResponse}

pub data Body : Type 0 where
  empty : Body
  error_body : ApiError → Body
  json : Bytes → Body
  -- the fixed text of a response that could not be encoded
  encode_failure : Body
  -- `http.Redirect` to a path
  redirect_to : Bytes → Body

pub record Response : Type 0 where
  pub status : ℕ
  pub etag : Option Bytes
  pub allow : Option Bytes
  pub body : Body
  -- the text of the error that `Adapt` logs
  pub reported : Option Bytes

abbrev pub respond : ℕ → Body → Response
respond status body = record {
  status = status;
  etag = none;
  allow = none;
  body = body;
  reported = none;
}

-- `api.WriteError`
unfoldable pub write_error : Error → Response
write_error e = let (status, a) = map_error (some e) in respond status (error_body a)

-- `Adapt` of an error
unfoldable pub adapt_error : Error → Response
unfolding write_error
adapt_error e =
    let refusal = write_error e in
    record refusal { reported = if leb 500 refusal.status then some (message e) else none }

-- Encoding of a page by package encoding/json, the hash of hash/fnv, and `strconv.FormatUint` with
-- base 16.
pub record Encoding {ℓ} (F : Type ℓ) : Type ℓ where
  pub marshal : ServersResponse F → Result Error Bytes
  pub sum64a : Bytes → ℕ
  pub format_hex : ℕ → Bytes

module _ {ℓ} {F : Type ℓ} (enc : Encoding F) where
  unfoldable pub compute_etag : Bytes → Bytes
  compute_etag encoded = b'"' ∷ (enc.format_hex (enc.sum64a encoded) ++ (b'"' ∷ []))

  -- `writeJSON`, of a cacheable response; `if_none_match` is that header of the request.
  unfoldable pub write_json : ℕ → ServersResponse F → Bytes → Response
  unfolding compute_etag same
  write_json status body if_none_match = elim (enc.marshal body) [
    | err _ ↦ respond 500 encode_failure
    | ok encoded ↦
        let etag = compute_etag encoded in
        if not (is_empty if_none_match) && same if_none_match etag
        then record { status = 304; etag = some etag; allow = none; body = empty; reported = none }
        else record {
          status = status;
          etag = some etag;
          allow = none;
          body = json encoded;
          reported = none;
        }
  ]

abbrev pub optional_header : Bytes → Option Bytes → List Action
optional_header key none = []
optional_header key (some value) = set_header key value ∷ []

-- `http.Redirect` to a path of the server, with the text of its status
abbrev pub redirect_actions : Bytes → ℕ → Bytes → Bytes → List Action
redirect_actions method status text path =
    set_header (codes "Location") path
      ∷ (if same method (codes "GET") || same method (codes "HEAD")
          then set_header (codes "Content-Type") (codes "text/html; charset=utf-8") ∷ []
          else [])
    ++ (write_header status
        ∷ (if same method (codes "GET")
            then write (codes "<a href=\"" ++ path ++ codes "\">" ++ text ++ codes "</a>.\n\n") ∷ []
            else []))

abbrev pub body_actions : (ApiError → Bytes) → Bytes → ℕ → Body → List Action
body_actions encode method status empty = write_header status ∷ []
body_actions encode method status (error_body a) = error_actions encode status a
body_actions encode method status (json bytes) =
    set_header (codes "Content-Type") (codes "application/json")
    ∷ write_header status
    ∷ write bytes
    ∷ []
body_actions encode method status encode_failure =
    set_header (codes "Content-Type") (codes "text/plain; charset=utf-8")
    ∷ set_header (codes "X-Content-Type-Options") (codes "nosniff")
    ∷ write_header status
    ∷ write (
        codes
          "{\"error\":{\"code\":\"internal_error\",\"message\":\"failed to encode response\"}}\n")
    ∷ []
body_actions encode method status (redirect_to path) =
    redirect_actions method status (codes "Found") path

abbrev pub etag_headers : Option Bytes → List Action
etag_headers none = []
etag_headers (some etag) =
    set_header (codes "ETag") etag ∷ set_header (codes "Cache-Control") (codes "no-cache") ∷ []

-- What a handler does with its `ResponseWriter`, to a request with this method.
unfoldable pub response_actions : (ApiError → Bytes) → Bytes → Response → List Action
unfolding error_actions same
response_actions encode method response =
    optional_header (codes "Allow") response.allow
    ++ (etag_headers response.etag ++ body_actions encode method response.status response.body)
