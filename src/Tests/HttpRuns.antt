-- ===== src/Tests/HttpRuns.antt =====
-- Requests to the server at concrete values.
use leasewebassignment.Base.{ℕ, ◌+◌, true, false, [], ◌∷◌, none, some, ◌≡◌, refl, ◌⊎◌, arith}
use leasewebassignment.Text.{codes, same, cut_prefix}
use leasewebassignment.Store.Path.{clean}
use leasewebassignment.Store.{new_indexed_server}
use leasewebassignment.Store.Catalog.{IsIndexed, catalog}
use leasewebassignment.Wire.{write_header, write}
use leasewebassignment.Mux.{
  unescape_segments, found, handler_for, find, find_from, path_matches, method_matches,
  more_specific, clean_path,
}
use leasewebassignment.Middleware.{Request, Handler, returned, panicked, with_middlewares}
use leasewebassignment.Middleware.Panicked.{Recovered, with_middlewares-Recovered}
use leasewebassignment.Middleware.Stack.{handled}
use leasewebassignment.Wire.Laws.{commits}
use leasewebassignment.Server.{App, Call, get_servers_call, no_route_call, serve, start}
use leasewebassignment.Server.Running.{IsRunning}
use leasewebassignment.Server.Routes.{Library, call, routes, register_route, serve_http}
use leasewebassignment.Server.Serving.{Served, serve_http-Served}
use leasewebassignment.Server.Dispatch.{endpoint_for}
use leasewebassignment.Server.Targets.{handler_for_lem}
use leasewebassignment.Server.Requests.{after_requests, after_requests-IsRunning}
use leasewebassignment.Server.Uploads.{Uploads, serve-Uploads}
use leasewebassignment.Tests.Parts.{plain_unicode, memory_disk_lawful, empty_disk}
use leasewebassignment.Tests.Instance.{disk, settings, form, upload, two_servers, query}

abbrev pub library : Library
library = record {
  ui_files = λ r. write (codes "page") ∷ [];
  swagger_assets = λ r. [];
  openapi = λ r. [];
  redirect = λ path r. write_header 301 ∷ [];
  compress = λ s. b'z' ∷ s;
  encode = λ e. e.message;
  out_of_range = codes "slice bounds out of range";
}

abbrev pub request : Request
request = record {
  method = codes "GET";
  path = codes "/v1/servers";
  escaped_path = codes "/v1/servers";
  remote_addr = codes "[::1]:5";
  accept_encoding = codes "gzip";
  random = some (1 ∷ 171 ∷ []);
  context_id = none;
  authorization = [];
  if_none_match = [];
  query = query;
  body = record { bytes = codes "form"; failed = none };
  multipart = λ body. form;
}

abbrev pub loaded : App disk ℕ
loaded = record { service = record { repo = some two_servers; files = empty_disk }; ready = true }

abbrev list_call : Request → Call
list_call r = get_servers_call r.query r.if_none_match

two_servers-IsIndexed : IsIndexed two_servers
unfolding new_indexed_server
two_servers-IsIndexed = (refl, (refl, tt))

loaded-ready : true ≡ false → catalog two_servers ≡ []
loaded-ready e = cc

abbrev loaded_running : IsRunning disk loaded
loaded_running = record {
  repo = two_servers;
  repo_is = refl;
  indexed = two_servers-IsIndexed;
  empty_until_ready = loaded-ready;
}

routed : handler_for routes (codes "GET") (codes "/v1/servers") ≡ found (call list_call)
unfolding handler_for routes register_route clean_path find find_from path_matches method_matches
    more_specific same cut_prefix clean unescape_segments
routed = refl

-- An escaped slash does not separate segments, and another escape stands for its byte.
escaped_slash :
    handler_for routes (codes "GET") (codes "/v1%2Fservers")
    ≡ found (call (λ r. no_route_call r.method r.path))
unfolding handler_for routes register_route clean_path find find_from path_matches method_matches
    more_specific same cut_prefix clean unescape_segments
escaped_slash = refl

serve_http-Served_example :
    Served disk settings library request list_call loaded
      (serve_http disk library true settings request loaded)
serve_http-Served_example =
    serve_http-Served disk settings library request list_call loaded loaded_running (omega arith)
      routed

abbrev hello : Handler ℕ
hello r n = record {
  state = n + 1;
  actions = write (codes "hello") ∷ [];
  log = [];
  ending = returned;
}

abbrev broken : Handler ℕ
broken r n = record { state = n; actions = []; log = []; ending = panicked (codes "nil map") }

with_middlewares-Recovered_example :
    Recovered library.encode library.compress request
      (codes "nil map")
      (handled library.encode library.compress true broken request 3)
      (with_middlewares library.encode library.compress true broken request 3)
unfolding commits
with_middlewares-Recovered_example =
    with_middlewares-Recovered library.encode library.compress broken request 3 refl refl

handler_for_lem_example :
    handler_for routes (codes "PUT") (codes "/docs/index%2ehtml")
    ≡ found (endpoint_for (codes "PUT") (unescape_segments (codes "/docs/index%2ehtml")))
unfolding clean_path same cut_prefix clean unescape_segments
handler_for_lem_example =
    handler_for_lem (codes "PUT") (codes "/docs/index%2ehtml") (codes "docs/index.html") refl refl
      (λ e. cc e) (λ e. cc e)

serve-Uploads_example :
    ((serve disk settings upload loaded).0.service.repo ≡ loaded.service.repo)
    ⊎ Uploads disk settings upload
        (serve disk settings upload loaded).0
        (serve disk settings upload loaded).1
serve-Uploads_example =
    serve-Uploads disk (memory_disk_lawful false) settings loaded loaded_running upload

abbrev upload_request : Request
upload_request = record request {
  method = codes "POST";
  path = codes "/v1/admin/upload";
  authorization = codes "Bearer secret";
}

after_requests-IsRunning_example : IsRunning disk (
    after_requests disk library true settings
      (upload_request ∷ request ∷ [])
      (start disk settings (codes "up") (codes "seed.csv") empty_disk))
after_requests-IsRunning_example =
    after_requests-IsRunning disk library true settings (codes "up") (codes "seed.csv") empty_disk
      (memory_disk_lawful false) (upload_request ∷ request ∷ [])
