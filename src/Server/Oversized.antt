-- ===== src/Server/Oversized.antt =====
-- The limit on the body of an upload. (internal/server/routes.go,
-- internal/server/middleware/maxbytes.go, internal/server/handlers/filter.go)
use leasewebassignment.Base.{
  ℕ, ◌<◌, ◌≤◌, Bool, false, length, take, some, ◌≡◌, refl, ap, ◌∙◌, err, arith,
}
use leasewebassignment.Text.{Bytes, codes, same, cut_prefix}
use leasewebassignment.Text.Case.{Unicode}
use leasewebassignment.Text.Decimal.{decimal}
use leasewebassignment.Errors.{Error, max_bytes, api_error, request_too_large, status_code}
use leasewebassignment.Api.{map_error, map_error_from, depth, as_api}
use leasewebassignment.Store.Path.{clean}
use leasewebassignment.Store.Files.{FileSystem}
use leasewebassignment.Handlers.Upload.{
  RequestBody, max_bytes_reader, Form, as_max_bytes, form_error, new_upload_server_request,
}
use leasewebassignment.Mux.{found, handler_for, clean_path, method_matches, unescape_segments}
use leasewebassignment.Middleware.{Request, max_bytes_middleware, is_blocked}
use leasewebassignment.Adapter.{Response, write_error, adapt_error}
use leasewebassignment.Server.{App, Settings, handle_upload, respond_upload, upload_call, serve}
use leasewebassignment.Server.Routes.{
  Library, call, routes, max_upload_bytes, read_upload, answer, handle_endpoint, handle_target, mux,
}
use leasewebassignment.Server.Dispatch.{endpoint_for}
use leasewebassignment.Server.Targets.{handler_for_lem}

-- What package net/http makes of a body whose reader fails before the form is at its end: an error
-- that has that of the reader in its chain. `Closes` says of some bytes that the form ends in them.
abbrev pub PassesOn : (RequestBody → Form) → (Bytes → Type 0) → Type 0
PassesOn multipart Closes =
    (body : RequestBody) (e : Error)
    → body.failed ≡ some e
    → (Closes body.bytes → ⊥)
    → (e' : Error) × ((multipart body).parse_failed ≡ some e') × (as_max_bytes e' ≡ as_max_bytes e)

max_bytes_reader-over :
    (limit : ℕ) (body : RequestBody)
    → limit < length body.bytes
    → max_bytes_reader limit body
      ≡ record { bytes = take limit body.bytes; failed = some (max_bytes limit) }
unfolding max_bytes_reader
max_bytes_reader-over limit body over = ground arith

max_bytes_reader-within :
    (limit : ℕ) (body : RequestBody)
    → length body.bytes ≤ limit
    → max_bytes_reader limit body ≡ body
unfolding max_bytes_reader
max_bytes_reader-within limit body within = ground arith

routed :
    handler_for routes (codes "POST") (codes "/v1/admin/upload")
    ≡ found (call (max_bytes_middleware max_upload_bytes read_upload))
unfolding endpoint_for same cut_prefix method_matches clean_path clean unescape_segments
routed =
    handler_for_lem (codes "POST") (codes "/v1/admin/upload") (codes "v1/admin/upload") refl refl
      (λ e. cc) (λ e. cc)

as_max_bytes-max_bytes : (limit : ℕ) → as_max_bytes (max_bytes limit) ≡ some limit
unfolding as_max_bytes
as_max_bytes-max_bytes limit = refl

abbrev too_large : Error
too_large = api_error (
    request_too_large (codes "upload too large")
      (codes "request body exceeds the 20971520 byte limit"))

module _ {ℓ} (fs : FileSystem) {F : Type ℓ} ⦃U : Unicode⦄ (lib : Library) (logger : Bool)
    (settings : Settings F) where
  mux-upload :
      (r : Request) (app : App fs F)
      → r.method ≡ codes "POST"
      → r.escaped_path ≡ codes "/v1/admin/upload"
      → mux fs lib logger settings r app
        ≡ answer lib logger r
            (serve fs settings (max_bytes_middleware max_upload_bytes read_upload r) app)
  unfolding mux handle_target handle_endpoint
  mux-upload r app is_post is_upload =
      let here : handler_for routes r.method r.escaped_path
          ≡ found (call (max_bytes_middleware max_upload_bytes read_upload)) =
        rw (is_post, is_upload) routed in
      ap (λ t. handle_target fs lib logger settings t r app) here

  -- An upload of a body that is not longer than the limit is what it would be without a limit.
  pub mux-within :
      (r : Request) (app : App fs F)
      → r.method ≡ codes "POST"
      → r.escaped_path ≡ codes "/v1/admin/upload"
      → length r.body.bytes ≤ max_upload_bytes
      → mux fs lib logger settings r app
        ≡ answer lib logger r (serve fs settings (read_upload r) app)
  unfolding max_bytes_middleware
  mux-within r app is_post is_upload within =
      mux-upload r app is_post is_upload
      ∙ ap
          (λ body.
            answer lib logger r (serve fs settings (read_upload (record r { body = body })) app))
          (max_bytes_reader-within max_upload_bytes r.body within)

  module _ (form : Form) (e : Error) (failed : form.parse_failed ≡ some e)
      (limited : as_max_bytes e ≡ some max_upload_bytes) where
    new_upload_server_request-over : new_upload_server_request form ≡ err too_large
    unfolding form_error decimal new_upload_server_request request_too_large
    new_upload_server_request-over =
        rw (failed, new_upload_server_request) (rw (limited, form_error) refl)

    serve-over :
        (authorization : Bytes) (app : App fs F)
        → is_blocked settings.auth_key authorization ≡ false
        → serve fs settings (upload_call authorization form) app
          ≡ (app, some (adapt_error too_large))
    unfolding respond_upload serve adapt_error handle_upload map_error
    serve-over authorization app passed =
        rw (passed, serve) (rw (new_upload_server_request-over, handle_upload) refl)

  status-too_large : (adapt_error too_large).status ≡ 413
  unfolding adapt_error write_error map_error map_error_from status_code depth as_api
      request_too_large
  status-too_large = refl

  -- An authorized upload of a body that is longer than the limit, and whose form does not end within the
  -- limit, gets the answer 413, whatever follows in the body, and leaves the state as it is. Package
  -- net/http passes on the error of the reader.
  pub mux-oversized :
      (r : Request) (app : App fs F) (Closes : Bytes → Type 0)
      → r.method ≡ codes "POST"
      → r.escaped_path ≡ codes "/v1/admin/upload"
      → is_blocked settings.auth_key r.authorization ≡ false
      → max_upload_bytes < length r.body.bytes
      → PassesOn r.multipart Closes
      → (Closes (take max_upload_bytes r.body.bytes) → ⊥)
      → (response : Response) × (response.status ≡ 413)
        × (mux fs lib logger settings r app ≡ answer lib logger r (app, some response))
  unfolding max_bytes_middleware
  mux-oversized r app Closes is_post is_upload passed over passes_on unclosed =
      let cut : RequestBody = record {
        bytes = take max_upload_bytes r.body.bytes;
        failed = some (max_bytes max_upload_bytes);
      } in
      let (e, failed, limited) = passes_on cut (max_bytes max_upload_bytes) refl unclosed in
      (
        adapt_error too_large,
        status-too_large,
        mux-upload r app is_post is_upload
            ∙ ap
                (λ body.
                  answer lib logger r
                    (serve fs settings (read_upload (record r { body = body })) app))
                (max_bytes_reader-over max_upload_bytes r.body over)
            ∙ ap (answer lib logger r) (
                serve-over (r.multipart cut) e failed
                  (limited ∙ as_max_bytes-max_bytes max_upload_bytes) r.authorization app passed),
      )
