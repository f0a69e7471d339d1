-- ===== src/Middleware.antt =====
-- The middlewares around the routes, as functions from handlers to handlers.
-- (internal/server/middleware)
pub mod Replies
pub mod Identifier
pub mod Stack
pub mod Answered
pub mod Panicked
use leasewebassignment.Base.{
  ℕ, ◌+◌, ◌/◌, ◌%◌, Bool, true, false, not, ◌||◌, List, [], ◌∷◌, ◌++◌, reverse, Option, none, some,
  ltb, ◌-◌, if◌then◌else◌,
}
use leasewebassignment.Text.{Bytes, codes, same, is_empty, cut_prefix, contains}
use leasewebassignment.Errors.{ApiError, internal_error, status_code}
use leasewebassignment.Handlers.{Values}
use leasewebassignment.Handlers.Upload.{Form, RequestBody, max_bytes_reader}
use leasewebassignment.Wire.{Action, set_header, add_header, write_header, write}

-- What the middlewares and the handlers read of a request; `multipart` is what package net/http makes
-- of a body as a form, given the headers of the request. `random` is what `rand.Read` gives for the eight bytes of
-- the identifier; the identifier is that of the context, "" if there is none.
pub record Request : Type 0 where
  pub method : Bytes
  pub path : Bytes
  -- `r.URL.EscapedPath()`, of which `path` is the unescaped form
  pub escaped_path : Bytes
  pub remote_addr : Bytes
  pub accept_encoding : Bytes
  pub random : Option Bytes
  pub context_id : Option Bytes
  pub authorization : Bytes
  pub if_none_match : Bytes
  pub query : Values
  pub body : RequestBody
  pub multipart : RequestBody → Form

-- One call of the logger, without times, durations and stacks.
pub data LogLine : Type 0 where
  -- `Infow("request", …)`: method, path, status, request id, remote address
  request_line : Bytes → Bytes → ℕ → Bytes → Bytes → LogLine
  -- `Errorw("panic recovered", …)`: the panic's value, path, request id
  panic_line : Bytes → Bytes → Bytes → LogLine
  -- `Errorw("handler error", …)`: path, status, the text of the error
  error_line : Bytes → ℕ → Bytes → LogLine

pub data Ending : Type 0 where
  returned : Ending
  panicked : Bytes → Ending

-- What a handler does: the state it leaves, the calls of its `ResponseWriter`, the log, its end.
pub record Run {ℓ} (S : Type ℓ) : Type ℓ where
  pub state : S
  pub actions : List Action
  pub log : List LogLine
  pub ending : Ending

-- `http.Handler`
abbrev pub Handler {ℓ} : Type ℓ → Type ℓ
Handler S = Request → S → Run S

-- `NewMaxBytesMiddleware`, around anything that is done with a request
unfoldable pub max_bytes_middleware {ℓ} : {H : Type ℓ} → ℕ → (Request → H) → Request → H
unfolding max_bytes_reader
max_bytes_middleware limit next r = next (record r { body = max_bytes_reader limit r.body })

-- the condition of `AuthMiddleware`; `subtle.ConstantTimeCompare` is equality
unfoldable pub is_blocked : Bytes → Bytes → Bool
unfolding cut_prefix same
is_blocked auth_key header = elim (cut_prefix header (codes "Bearer ")) [
  | none ↦ true
  | some token ↦ is_empty auth_key || not (same token auth_key)
]

-- `middleware.Chain`: the loop goes from the last middleware to the first.
abbrev pub wrap_all {ℓ} : {H : Type ℓ} → H → List (H → H) → H
wrap_all h [] = h
wrap_all h (mw ∷ mws) = wrap_all (mw h) mws

unfoldable pub chain {ℓ} : {H : Type ℓ} → H → List (H → H) → H
chain base mws = wrap_all base (reverse mws)

-- `hex.EncodeToString`
abbrev pub hex_digit : ℕ → ℕ
hex_digit n = if ltb n 10 then b'0' + n else (b'a' + n) - 10

unfoldable pub hex_encode : Bytes → Bytes
hex_encode [] = []
hex_encode (b ∷ bytes) = hex_digit (b / 16) ∷ hex_digit (b % 16) ∷ hex_encode bytes

unfoldable pub generate_request_id : Option Bytes → Bytes
unfolding hex_encode
generate_request_id none = codes "unavailable"
generate_request_id (some bytes) = hex_encode bytes

abbrev pub request_id_header : Bytes
request_id_header = codes "X-Request-Id"

-- `RequestIDFromContext`
abbrev pub request_id_from : Option Bytes → Bytes
request_id_from none = []
request_id_from (some id) = id

-- The status that a `statusRecorder` is left with.
unfoldable pub recorded : ℕ → List Action → ℕ
recorded status [] = status
recorded status (set_header key value ∷ rest) = recorded status rest
recorded status (add_header key value ∷ rest) = recorded status rest
recorded status (write_header n ∷ rest) = recorded n rest
recorded status (write bytes ∷ rest) = recorded status rest

-- What reaches the outer writer through a `gzipResponseWriter`, `buffer` having been written so far:
-- a write may send some of the compressed stream and so sends the status, `Close` sends the rest of
-- it. The stream comes out here as a whole, at the end.
unfoldable pub squeeze : (Bytes → Bytes) → Bytes → List Action → List Action
squeeze compress buffer [] = write (compress buffer) ∷ []
squeeze compress buffer (set_header key value ∷ rest) =
    set_header key value ∷ squeeze compress buffer rest
squeeze compress buffer (add_header key value ∷ rest) =
    add_header key value ∷ squeeze compress buffer rest
squeeze compress buffer (write_header status ∷ rest) =
    write_header status ∷ squeeze compress buffer rest
squeeze compress buffer (write bytes ∷ rest) = write [] ∷ squeeze compress (buffer ++ bytes) rest

-- `httperr.WriteJSON`; `encode` is package encoding/json.
unfoldable pub error_actions : (ApiError → Bytes) → ℕ → ApiError → List Action
error_actions encode status e =
    set_header (codes "Content-Type") (codes "application/json")
    ∷ write_header status
    ∷ write (encode e)
    ∷ []

abbrev pub unexpected_error : ApiError
unexpected_error = internal_error (codes "internal server error") (codes "unexpected error")

abbrev pub accepts_gzip : Request → Bool
accepts_gzip r = contains r.accept_encoding (codes "gzip")

abbrev pub log_request : Request → ℕ → Ending → List LogLine
log_request r status returned =
    request_line r.method r.path status (request_id_from r.context_id) r.remote_addr ∷ []
log_request r status (panicked value) = []

abbrev pub log_panic : Bool → Request → Bytes → List LogLine
log_panic false r value = []
log_panic true r value = panic_line value r.path (request_id_from r.context_id) ∷ []

module _ {ℓ} {S : Type ℓ} where
  unfoldable pub request_id : Handler S → Handler S
  unfolding generate_request_id
  request_id next r s =
      let id = generate_request_id r.random in
      let out = next (record r { context_id = some id }) s in
      record out { actions = set_header request_id_header id ∷ out.actions }

  -- `NewLoggingMiddleware`; a nil logger is `false`. A panic leaves it before its line is written.
  unfoldable pub logging : Bool → Handler S → Handler S
  unfolding recorded
  logging false next r s = next r s
  logging true next r s =
      let out = next r s in
      record out { log = out.log ++ log_request r (recorded 200 out.actions) out.ending }

  -- The deferred `Close` runs after a panic too.
  unfoldable pub gzip : (Bytes → Bytes) → Handler S → Handler S
  unfolding squeeze contains
  gzip compress next r s =
      if not (accepts_gzip r)
      then next r s
      else (let out = next r s in
          record out {
            actions =
                set_header (codes "Content-Encoding") (codes "gzip")
                ∷ add_header (codes "Vary") (codes "Accept-Encoding")
                ∷ squeeze compress [] out.actions;
          })

  -- what the deferred function of `NewRecoverMiddleware` does, in the context of `r`
  abbrev pub after_panic : (ApiError → Bytes) → Bool → Request → Run S → Ending → Run S
  after_panic encode logger r out returned = out
  after_panic encode logger r out (panicked value) = record out {
    actions = out.actions ++ error_actions encode (status_code unexpected_error) unexpected_error;
    log = out.log ++ log_panic logger r value;
    ending = returned;
  }

  unfoldable pub recovering : (ApiError → Bytes) → Bool → Handler S → Handler S
  unfolding error_actions
  recovering encode logger next r s =
      let out = next r s in after_panic encode logger r out out.ending

  -- the chain that `routes` builds
  unfoldable pub with_middlewares :
      (ApiError → Bytes) → (Bytes → Bytes) → Bool → Handler S → Handler S
  unfolding chain recovering request_id logging gzip
  with_middlewares encode compress logger mux =
      chain mux (recovering encode logger ∷ request_id ∷ logging logger ∷ gzip compress ∷ [])
