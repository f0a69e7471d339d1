-- ===== src/Server.antt =====
-- The running server: start-up, the calls that the routes lead to, and the response to each.
-- (cmd/main.go, internal/server/routes.go, internal/server/handlers/servers.go,
-- internal/server/handlers/adapters.go)
pub mod Access
pub mod Running
pub mod Ready
pub mod Listing
pub mod Routes
pub mod Serving
pub mod Dispatch
pub mod Targets
pub mod Uploads
pub mod Requests
pub mod Oversized
pub mod Cache
use leasewebassignment.Base.{
  ℕ, Bool, true, false, not, ◌||◌, ◌&&◌, List, [], ◌∷◌, ◌++◌, reverse, Option, none, some,
  if◌then◌else◌, Result, ok, err,
}
use leasewebassignment.Text.{Bytes, codes, same, is_empty, cut_prefix}
use leasewebassignment.Text.Case.{Unicode}
use leasewebassignment.Text.Decimal.{decimal}
use leasewebassignment.Errors.{
  Error, ApiError, plain, not_exist, max_bytes, wrapped, api_error, csv_parse_error, service_error,
  store_error, message, invalid_input, request_too_large, unauthorized, not_found,
  method_not_allowed, service_unavailable, internal_error,
}
use leasewebassignment.Store.{MemoryRepository, new_memory_repository}
use leasewebassignment.Store.Files.{FileSystem}
use leasewebassignment.Service.{ServiceState, Parser, upload_server_data, load_server_data}
use leasewebassignment.Api.{map_error}
use leasewebassignment.Handlers.{Values}
use leasewebassignment.Handlers.Upload.{Form, FormFile, new_upload_server_request}
use leasewebassignment.Middleware.{is_blocked}
use leasewebassignment.Adapter.{
  Body, empty, error_body, json, redirect_to, Response, respond, write_error, adapt_error, Encoding,
  write_json,
}
use leasewebassignment.Handlers.Page.{
  ServersResponse, Allowed, panics, returns, new_handler, handle_get_servers,
}

-- The server's state: the service, and whether data has been loaded.
pub record App {ℓ} (fs : FileSystem) (F : Type ℓ) : Type ℓ where
  pub service : ServiceState fs F
  pub ready : Bool

-- What `NewServer` is configured with.
pub record Settings {ℓ} (F : Type ℓ) : Type ℓ where
  pub auth_key : Bytes
  pub allowed : Allowed
  pub parse : Parser F
  pub encoding : Encoding F

-- The handlers that the routes lead to, each with what it reads of the request. Server.Routes says
-- which request leads to which of them.
pub data Call : Type 0 where
  -- GET /v1/servers, with its query and the header If-None-Match
  get_servers_call : Values → Bytes → Call
  -- POST /v1/admin/upload, with the header Authorization
  upload_call : Bytes → Form → Call
  healthz_call : Call
  readyz_call : Call
  -- another method on one of these paths, with the one that is allowed
  wrong_method_call : Bytes → Bytes → Call
  -- the catch-all, with the method and the path
  no_route_call : Bytes → Bytes → Call

module _ {ℓ} (fs : FileSystem) {F : Type ℓ} ⦃U : Unicode⦄ where
  -- `Handler.Upload`
  unfoldable pub handle_upload : Parser F → Form → App fs F → App fs F × Option Error
  unfolding new_upload_server_request
  handle_upload parse form app = elim (new_upload_server_request form) [
    | err e ↦ (app, some e)
    | ok file ↦
        let (service, failed) =
          upload_server_data fs parse file.filename file.content app.service in
        elim failed [
          | some e ↦ (record app { service = service }, some e)
          | none ↦ (record { service = service; ready = true }, none)
        ]
  ]

  -- `Adapt` of the handler; a panic is `none`.
  unfoldable pub respond_get_servers : Settings F → Values → Bytes → App fs F → Option Response
  respond_get_servers settings values if_none_match app =
      elim (handle_get_servers fs (new_handler settings.allowed) app.service values) [
        | panics ↦ none
        | returns result ↦ elim result [
          | err e ↦ some (adapt_error e)
          | ok body ↦ some (write_json settings.encoding 200 body if_none_match)
        ]
      ]

  unfoldable pub respond_upload : App fs F × Option Error → App fs F × Option Response
  respond_upload (app, failed) = elim failed [
    | some e ↦ (app, some (adapt_error e))
    | none ↦ (app, some (respond 204 empty))
  ]

  unfoldable pub serve : Settings F → Call → App fs F → App fs F × Option Response
  unfolding is_blocked same
  serve settings (get_servers_call values if_none_match) app =
      (app, respond_get_servers settings values if_none_match app)
  serve settings (upload_call authorization form) app =
      if is_blocked settings.auth_key authorization
      then (
        app,
        some (
            write_error (
              api_error (
                unauthorized (codes "authorization required")
                  (codes "authorization header must be 'Bearer <token>' with a valid token")))),
      )
      else respond_upload (handle_upload settings.parse form app)
  serve settings healthz_call app = (app, some (respond 200 empty))
  serve settings readyz_call app =
      if not app.ready
      then (
        app,
        some (
            write_error (
              api_error (
                service_unavailable (codes "server has no data loaded yet")
                  (codes "upload a catalog via POST /v1/admin/upload to recover")))),
      )
      else (app, some (respond 200 empty))
  serve settings (wrong_method_call method allowed) app =
      let refusal = write_error (
        api_error (
          method_not_allowed (codes "method not allowed")
            (method ++ codes " is not supported on this path, use " ++ allowed))) in
      (app, some (record refusal { allow = some allowed }))
  serve settings (no_route_call method path) app =
      if same path (codes "/") then (app, some (respond 302 (redirect_to (codes "/ui/")))) else (
        app,
        some (
            write_error (
              api_error (
                not_found (codes "not found")
                  (codes "no route matches " ++ method ++ codes " " ++ path)))),
      )

  -- `main`: the repository, and the load of the data file, which may fail
  unfoldable pub start : Settings F → Bytes → Bytes → fs.State → App fs F
  start settings upload_dir data_file files =
      let repo = new_memory_repository upload_dir in
      let (service, failed) =
        load_server_data fs settings.parse data_file (record { repo = some repo; files = files }) in
      elim failed [
        | some _ ↦ record { service = service; ready = false }
        | none ↦ record { service = service; ready = true }
      ]
