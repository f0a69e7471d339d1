-- ===== src/Server/Dispatch.antt =====
-- Which handler a request meets: the table that the registered patterns add up to.
-- (internal/server/routes.go)
use leasewebassignment.Base.{
  Bool, false, ◌&&◌, List, ◌∷◌, Option, none, some, ◌≡◌, refl, if◌then◌else◌, inl, inr, Bool-cases,
  Option-cases,
}
use leasewebassignment.Text.{Bytes, codes, same, is_some, cut_prefix}
use leasewebassignment.Text.Laws.{same_iff, cut_prefix-eq-some}
use leasewebassignment.Mux.{Pattern, method_matches, path_matches, more_specific, find_from, find}
use leasewebassignment.Server.{
  get_servers_call, healthz_call, readyz_call, wrong_method_call, no_route_call,
}
use leasewebassignment.Middleware.{max_bytes_middleware}
use leasewebassignment.Server.Routes.{
  Endpoint, call, ui, docs, openapi_file, register_route, routes, max_upload_bytes, read_upload,
}

-- The endpoint if the method is the one allowed, and the refusal that names it otherwise.
abbrev only : Bytes → Endpoint → Bytes → Endpoint
only allowed endpoint method =
    if method_matches (some allowed) method
    then endpoint
    else call (λ r. wrong_method_call r.method allowed)

abbrev is_below : Bytes → Bytes → Bool
is_below path prefix = is_some (cut_prefix path prefix)

-- The handler for a method and a path.
unfoldable pub endpoint_for : Bytes → Bytes → Endpoint
unfolding same cut_prefix method_matches max_bytes_middleware
endpoint_for method path =
    if same path (codes "/v1/servers")
    then only (codes "GET") (call (λ r. get_servers_call r.query r.if_none_match)) method
    else if same path (codes "/v1/admin/upload")
    then only (codes "POST") (call (max_bytes_middleware max_upload_bytes read_upload)) method
    else if same path (codes "/healthz")
    then only (codes "GET") (call (λ r. healthz_call)) method
    else if same path (codes "/readyz")
    then only (codes "GET") (call (λ r. readyz_call)) method
    else if same path (codes "/openapi.yaml")
    then only (codes "GET") openapi_file method
    else if is_below path (codes "/ui/") && method_matches (some (codes "GET")) method
    then ui
    else if is_below path (codes "/docs/") && method_matches (some (codes "GET")) method
    then docs
    else call (λ r. no_route_call r.method r.path)

abbrev pub endpoint_of : Option (Pattern × Endpoint) → Option Endpoint
endpoint_of none = none
endpoint_of (some (pattern, endpoint)) = some endpoint

-- What is to show of a path.
abbrev Dispatches : Bytes → Bytes → Type 0
Dispatches method path = endpoint_of (find routes method path) ≡ some (endpoint_for method path)

Dispatches-servers : (method : Bytes) → Dispatches method (codes "/v1/servers")
unfolding find find_from routes register_route endpoint_for path_matches more_specific same
    cut_prefix
Dispatches-servers method = elim (Bool-cases (method_matches (some (codes "GET")) method)) [
  | inl allowed ↦ rw allowed
  | inr refused ↦ rw refused
]

Dispatches-upload : (method : Bytes) → Dispatches method (codes "/v1/admin/upload")
unfolding find find_from routes register_route endpoint_for path_matches more_specific same
    cut_prefix
Dispatches-upload method = elim (Bool-cases (method_matches (some (codes "POST")) method)) [
  | inl allowed ↦ rw allowed
  | inr refused ↦ rw refused
]

Dispatches-healthz : (method : Bytes) → Dispatches method (codes "/healthz")
unfolding find find_from routes register_route endpoint_for path_matches more_specific same
    cut_prefix
Dispatches-healthz method = elim (Bool-cases (method_matches (some (codes "GET")) method)) [
  | inl allowed ↦ rw allowed
  | inr refused ↦ rw refused
]

Dispatches-readyz : (method : Bytes) → Dispatches method (codes "/readyz")
unfolding find find_from routes register_route endpoint_for path_matches more_specific same
    cut_prefix
Dispatches-readyz method = elim (Bool-cases (method_matches (some (codes "GET")) method)) [
  | inl allowed ↦ rw allowed
  | inr refused ↦ rw refused
]

Dispatches-openapi : (method : Bytes) → Dispatches method (codes "/openapi.yaml")
unfolding find find_from routes register_route endpoint_for path_matches more_specific same
    cut_prefix
Dispatches-openapi method = elim (Bool-cases (method_matches (some (codes "GET")) method)) [
  | inl allowed ↦ rw allowed
  | inr refused ↦ rw refused
]

module _ {ℓ} {H : Type ℓ} where
  find_from-skip :
      (best : Option (Pattern × H)) (pattern : Pattern) (h : H) (rest : List (Pattern × H))
      (method path : Bytes)
      → path_matches pattern.path path ≡ false
      → find_from best ((pattern, h) ∷ rest) method path ≡ find_from best rest method path
  unfolding find_from
  find_from-skip best pattern h rest method path e = rw e

-- a path that no pattern without a slash at its end matches
pub record IsOther (path : Bytes) : Type 0 where
  pub not_servers : same path (codes "/v1/servers") ≡ false
  pub not_upload : same path (codes "/v1/admin/upload") ≡ false
  pub not_healthz : same path (codes "/healthz") ≡ false
  pub not_readyz : same path (codes "/readyz") ≡ false
  pub not_openapi : same path (codes "/openapi.yaml") ≡ false

docs-ui :
    (path rest : Bytes)
    → cut_prefix path (codes "/ui/") ≡ some rest
    → cut_prefix path (codes "/docs/") ≡ none
unfolding cut_prefix same
docs-ui path rest e = rw (cut_prefix-eq-some path (codes "/ui/") e) refl

Dispatches-other :
    (method path rest : Bytes)
    → cut_prefix path (codes "/") ≡ some rest
    → IsOther path
    → Dispatches method path
unfolding find find_from routes register_route endpoint_for path_matches more_specific
Dispatches-other method path rest rooted other =
    let get = Bool-cases (method_matches (some (codes "GET")) method) in
    elim (Option-cases (cut_prefix path (codes "/ui/"))) [
      | inr (below, u) ↦
          let d = docs-ui path below u in
          elim get [
            | inl g ↦ rw (
              other.not_servers, other.not_upload, other.not_healthz, other.not_readyz,
              other.not_openapi, rooted, u, d, g,
            )
            | inr g ↦ rw (
              other.not_servers, other.not_upload, other.not_healthz, other.not_readyz,
              other.not_openapi, rooted, u, d, g,
            )
          ]
      | inl u ↦ elim (Option-cases (cut_prefix path (codes "/docs/"))) [
        | inr (below, d) ↦ elim get [
          | inl g ↦ rw (
            other.not_servers, other.not_upload, other.not_healthz, other.not_readyz,
            other.not_openapi, rooted, u, d, g,
          )
          | inr g ↦ rw (
            other.not_servers, other.not_upload, other.not_healthz, other.not_readyz,
            other.not_openapi, rooted, u, d, g,
          )
        ]
        | inl d ↦ rw (
          other.not_servers, other.not_upload, other.not_healthz, other.not_readyz,
          other.not_openapi, rooted, u, d,
        )
      ]
    ]

-- What the routes do with a request whose path starts with a slash.
pub dispatch_lem :
    (method path rest : Bytes)
    → cut_prefix path (codes "/") ≡ some rest
    → endpoint_of (find routes method path) ≡ some (endpoint_for method path)
dispatch_lem method path rest rooted = elim (Bool-cases (same path (codes "/v1/servers"))) [
  | inl e ↦ rw ((same_iff path (codes "/v1/servers")).0 e) (Dispatches-servers method)
  | inr n1 ↦ elim (Bool-cases (same path (codes "/v1/admin/upload"))) [
    | inl e ↦ rw ((same_iff path (codes "/v1/admin/upload")).0 e) (Dispatches-upload method)
    | inr n2 ↦ elim (Bool-cases (same path (codes "/healthz"))) [
      | inl e ↦ rw ((same_iff path (codes "/healthz")).0 e) (Dispatches-healthz method)
      | inr n3 ↦ elim (Bool-cases (same path (codes "/readyz"))) [
        | inl e ↦ rw ((same_iff path (codes "/readyz")).0 e) (Dispatches-readyz method)
        | inr n4 ↦ elim (Bool-cases (same path (codes "/openapi.yaml"))) [
          | inl e ↦ rw ((same_iff path (codes "/openapi.yaml")).0 e) (Dispatches-openapi method)
          | inr n5 ↦ Dispatches-other method path rest rooted (record {
            not_servers = n1;
            not_upload = n2;
            not_healthz = n3;
            not_readyz = n4;
            not_openapi = n5;
          })
        ]
      ]
    ]
  ]
]
