-- ===== src/Server/Routes.antt =====
-- The routes and what a request to each of them does, from the multiplexer to the middlewares around
-- it. (internal/server/routes.go, internal/server/swaggerui.go, internal/server/server.go,
-- internal/server/handlers/adapters.go)
use leasewebassignment.Base.{
  ℕ, ◌*◌, ◌^◌, Bool, true, false, ◌||◌, List, [], ◌∷◌, ◌++◌, Option, none, some, if◌then◌else◌,
}
use leasewebassignment.Text.{Bytes, codes, same, is_empty, cut_prefix}
use leasewebassignment.Text.Case.{Unicode}
use leasewebassignment.Errors.{ApiError}
use leasewebassignment.Store.Files.{FileSystem}
use leasewebassignment.Wire.{Action, set_header, write_header, write}
use leasewebassignment.Middleware.{
  Request, LogLine, error_line, Run, Handler, returned, panicked, max_bytes_middleware,
  with_middlewares,
}
use leasewebassignment.Adapter.{Response, response_actions}
use leasewebassignment.Mux.{Pattern, Target, moved, found, nowhere, handler_for}
use leasewebassignment.Server.{
  App, Settings, Call, get_servers_call, upload_call, healthz_call, readyz_call, wrong_method_call,
  no_route_call, serve,
}

-- Package net/http and the two file trees: what `http.FileServer` writes of web/ and of the Swagger
-- assets, `http.ServeFile` of docs/openapi.yaml, and `http.RedirectHandler` to a clean path.
pub record Library : Type 0 where
  pub ui_files : Request → List Action
  pub swagger_assets : Request → List Action
  pub openapi : Request → List Action
  pub redirect : Bytes → Request → List Action
  pub compress : Bytes → Bytes
  pub encode : ApiError → Bytes
  -- what the run time says of a slice out of range
  pub out_of_range : Bytes

pub data Endpoint : Type 0 where
  call : (Request → Call) → Endpoint
  ui : Endpoint
  docs : Endpoint
  openapi_file : Endpoint

-- `swaggerIndexHTML`
abbrev pub swagger_index_html : Bytes
swagger_index_html =
    codes "<!DOCTYPE html>\n<html lang=\"en\">\n<head>\n  <meta charset=\"UTF-8\">\n"
    ++ codes "  <title>Leaseweb Assignment API</title>\n"
    ++ codes "  <link rel=\"stylesheet\" href=\"./swagger-ui.css\">\n"
    ++ codes
        "  <link rel=\"icon\" type=\"image/png\" href=\"./favicon-32x32.png\" sizes=\"32x32\">\n"
    ++ codes "</head>\n<body>\n  <div id=\"swagger-ui\"></div>\n"
    ++ codes "  <script src=\"./swagger-ui-bundle.js\"></script>\n"
    ++ codes "  <script src=\"./swagger-ui-standalone-preset.js\"></script>\n"
    ++ codes "  <script>\n    window.onload = function () {\n      window.ui = SwaggerUIBundle({\n"
    ++ codes "        url: \"/openapi.yaml\",\n        dom_id: \"#swagger-ui\",\n"
    ++ codes
        "        deepLinking: true,\n        docExpansion: \"list\",\n        validatorUrl: null,\n"
    ++ codes "        presets: [SwaggerUIBundle.presets.apis, SwaggerUIStandalonePreset],\n"
    ++ codes "        plugins: [SwaggerUIBundle.plugins.DownloadUrl],\n"
    ++ codes
        "        layout: \"StandaloneLayout\"\n      });\n    };\n  </script>\n</body>\n</html>\n"

-- `newSwaggerUIHandler`
unfoldable pub swagger_ui : (Request → List Action) → Request → List Action
unfolding same
swagger_ui assets r =
    if is_empty r.path || same r.path (codes "/") || same r.path (codes "/index.html")
    then set_header (codes "Content-Type") (codes "text/html; charset=utf-8")
      ∷ write swagger_index_html
      ∷ []
    else assets r

-- `http.NotFound`
abbrev pub not_found_actions : List Action
not_found_actions =
    set_header (codes "Content-Type") (codes "text/plain; charset=utf-8")
    ∷ set_header (codes "X-Content-Type-Options") (codes "nosniff")
    ∷ write_header 404
    ∷ write (codes "404 page not found\n")
    ∷ []

-- `http.StripPrefix`, of the path and of its escaped form
unfoldable pub strip_prefix : Bytes → (Request → List Action) → Request → List Action
unfolding cut_prefix
strip_prefix prefix next r = elim (cut_prefix r.path prefix) [
  | none ↦ not_found_actions
  | some rest ↦ elim (cut_prefix r.escaped_path prefix) [
    | none ↦ not_found_actions
    | some escaped_rest ↦ next (record r { path = rest; escaped_path = escaped_rest })
  ]
]

unfoldable pub register_route : Bytes → Bytes → Endpoint → List (Pattern × Endpoint)
register_route method path endpoint =
    (record { method = some method; path = path }, endpoint)
    ∷ (record { method = none; path = path }, call (λ r. wrong_method_call r.method method))
    ∷ []

abbrev get_only : Bytes → Pattern
get_only path = record { method = some (codes "GET"); path = path }

-- `maxUploadBytes`, which is `20 << 20`
abbrev pub max_upload_bytes : ℕ
max_upload_bytes = 20 * 2 ^ 20

-- what the upload handler reads of a request
abbrev pub read_upload : Request → Call
read_upload r = upload_call r.authorization (r.multipart r.body)

-- the patterns that `routes` registers, in its order
unfoldable pub routes : List (Pattern × Endpoint)
unfolding register_route max_bytes_middleware
routes =
    register_route (codes "GET") (codes "/v1/servers")
      (call (λ r. get_servers_call r.query r.if_none_match))
    ++ register_route (codes "POST") (codes "/v1/admin/upload")
        (call (max_bytes_middleware max_upload_bytes read_upload))
    ++ register_route (codes "GET") (codes "/healthz") (call (λ r. healthz_call))
    ++ register_route (codes "GET") (codes "/readyz") (call (λ r. readyz_call))
    ++ ((get_only (codes "/ui/"), ui) ∷ (get_only (codes "/docs/"), docs) ∷ [])
    ++ register_route (codes "GET") (codes "/openapi.yaml") openapi_file
    ++ ((record { method = none; path = codes "/" }, call (λ r. no_route_call r.method r.path))
        ∷ [])

abbrev pub sends {ℓ} : {S : Type ℓ} → S → List Action → Run S
sends s actions = record { state = s; actions = actions; log = []; ending = returned }

-- the line that `Adapt` logs
abbrev error_lines : Bytes → ℕ → Option Bytes → List LogLine
error_lines path status none = []
error_lines path status (some error) = error_line path status error ∷ []

abbrev pub reported_line : Bool → Bytes → Response → List LogLine
reported_line false path response = []
reported_line true path response = error_lines path response.status response.reported

module _ {ℓ} {S : Type ℓ} where
  -- What comes of a call, on the wire and in the log; a panic is `none`.
  unfoldable pub answer : Library → Bool → Request → S × Option Response → Run S
  unfolding response_actions
  answer lib logger r (s, none) = record {
    state = s;
    actions = [];
    log = [];
    ending = panicked lib.out_of_range;
  }
  answer lib logger r (s, some response) = record {
    state = s;
    actions = response_actions lib.encode r.method response;
    log = reported_line logger r.path response;
    ending = returned;
  }

module _ {ℓ} (fs : FileSystem) {F : Type ℓ} ⦃U : Unicode⦄ (lib : Library) (logger : Bool)
    (settings : Settings F) where
  unfoldable pub handle_endpoint : Endpoint → Handler (App fs F)
  unfolding serve answer strip_prefix swagger_ui
  handle_endpoint (call make) r app = answer lib logger r (serve fs settings (make r) app)
  handle_endpoint ui r app = sends app (strip_prefix (codes "/ui/") lib.ui_files r)
  handle_endpoint docs r app =
      sends app (strip_prefix (codes "/docs/") (swagger_ui lib.swagger_assets) r)
  handle_endpoint openapi_file r app = sends app (lib.openapi r)

  unfoldable pub handle_target : Target Endpoint → Handler (App fs F)
  unfolding handle_endpoint
  handle_target (moved path) r app = sends app (lib.redirect path r)
  handle_target (found endpoint) r app = handle_endpoint endpoint r app
  handle_target nowhere r app = sends app not_found_actions

  -- the multiplexer with the routes
  unfoldable pub mux : Handler (App fs F)
  unfolding handle_target handler_for routes
  mux r app = handle_target (handler_for routes r.method r.escaped_path) r app

  -- `ServeHTTP`
  unfoldable pub serve_http : Handler (App fs F)
  unfolding with_middlewares mux
  serve_http = with_middlewares lib.encode lib.compress logger mux
