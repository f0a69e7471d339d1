-- ===== src/Server/Cache.antt =====
-- A server that keeps its routes once they are built. (internal/server/server.go,
-- internal/server/routes.go)
use leasewebassignment.Base.{
  Bool, false, List, [], ◌∷◌, Option, none, some, ◌≡◌, refl, ap, ◌∙◌, ◌⊎◌, inl, inr,
}
use leasewebassignment.Text.{Bytes}
use leasewebassignment.Text.Case.{Unicode}
use leasewebassignment.Store.Files.{FileSystem}
use leasewebassignment.Service.{ServiceState, Parser}
use leasewebassignment.Adapter.{Encoding}
use leasewebassignment.Middleware.{Request, Handler, Run}
use leasewebassignment.Server.{App, Settings}
use leasewebassignment.Server.Routes.{Library, serve_http}

-- What `NewServer` is given; `ready` may be nil.
pub record ServerConfig {ℓ} (fs : FileSystem) (F : Type ℓ) : Type ℓ where
  pub service : ServiceState fs F
  pub logger : Bool
  pub auth_key : Bytes
  pub allowed_ram : List Bytes
  pub allowed_disk_types : List Bytes
  pub ready : Option Bool

-- A server: its handlers with their settings, its state, and the routes if they have been built.
pub record Server {ℓ} (fs : FileSystem) (F : Type ℓ) : Type ℓ where
  pub settings : Settings F
  pub logger : Bool
  pub app : App fs F
  pub once : Option (Handler (App fs F))

abbrev pub ready_or_false : Option Bool → Bool
ready_or_false none = false
ready_or_false (some ready) = ready

module _ {ℓ} (fs : FileSystem) {F : Type ℓ} ⦃U : Unicode⦄ (parse : Parser F)
    (encoding : Encoding F) where
  unfoldable pub new_server : ServerConfig fs F → Server fs F
  new_server cfg = record {
    settings = record {
      auth_key = cfg.auth_key;
      allowed = record { ram = cfg.allowed_ram; disk_types = cfg.allowed_disk_types };
      parse = parse;
      encoding = encoding;
    };
    logger = cfg.logger;
    app = record { service = cfg.service; ready = ready_or_false cfg.ready };
    once = none;
  }

module _ {ℓ} (fs : FileSystem) {F : Type ℓ} ⦃U : Unicode⦄ (lib : Library) where
  -- `Server.routes`
  unfoldable pub cached_routes : Server fs F → Server fs F × Handler (App fs F)
  cached_routes s = elim s.once [
    | some once ↦ (s, once)
    | none ↦
        let built = serve_http fs lib s.logger s.settings in (record s { once = some built }, built)
  ]

  -- `Server.ServeHTTP`, with all that comes of it
  unfoldable pub serve_cached : Request → Server fs F → Server fs F × Run (App fs F)
  unfolding cached_routes
  serve_cached r s =
      let (s', handler) = cached_routes s in
      let run = handler r s'.app in (record s' { app = run.state }, run)

  -- What comes of some requests, one after another.
  unfoldable pub serve_all : List Request → Server fs F → List (Run (App fs F))
  unfolding serve_cached
  serve_all [] s = []
  serve_all (r ∷ requests) s = let (s', run) = serve_cached r s in run ∷ serve_all requests s'

  -- the same, with routes that are built for each request
  unfoldable pub serve_each : Bool → Settings F → List Request → App fs F → List (Run (App fs F))
  unfolding serve_http
  serve_each logger settings [] app = []
  serve_each logger settings (r ∷ requests) app =
      let run = serve_http fs lib logger settings r app in
      run ∷ serve_each logger settings requests run.state

  -- The routes that are kept are those that would be built.
  IsCached : Server fs F → Type ℓ
  IsCached s = (s.once ≡ none) ⊎ (s.once ≡ some (serve_http fs lib s.logger s.settings))

  cached_routes-IsCached :
      (s : Server fs F)
      → IsCached s
      → cached_routes s ≡ (
        record s { once = some (serve_http fs lib s.logger s.settings) },
        serve_http fs lib s.logger s.settings,
      )
  unfolding IsCached cached_routes
  cached_routes-IsCached s (inl e) = rw (e, cached_routes) refl
  cached_routes-IsCached s (inr e) = rw (e, cached_routes) (rw (← e) refl)

  abbrev built : Server fs F → Handler (App fs F)
  built s = serve_http fs lib s.logger s.settings

  -- the server behind a request
  abbrev served : Request → Server fs F → Server fs F
  served r s = record s { app = (built s r s.app).state; once = some (built s) }

  serve_cached-IsCached :
      (r : Request) (s : Server fs F)
      → IsCached s
      → serve_cached r s ≡ (served r s, built s r s.app)
  unfolding serve_cached
  serve_cached-IsCached r s h =
      ap
        (λ (c : Server fs F × Handler (App fs F)).
          (record c.0 { app = (c.1 r c.0.app).state }, c.1 r c.0.app))
        (cached_routes-IsCached s h)

  served-IsCached : (r : Request) (s : Server fs F) → IsCached (served r s)
  unfolding IsCached
  served-IsCached r s = inr refl

  serve_all-IsCached :
      (requests : List Request) (s : Server fs F)
      → IsCached s
      → serve_all requests s ≡ serve_each s.logger s.settings requests s.app
  unfolding serve_all serve_each
  serve_all-IsCached [] s h = refl
  serve_all-IsCached (r ∷ requests) s h =
      ap (λ (c : Server fs F × Run (App fs F)). c.1 ∷ serve_all requests c.0)
        (serve_cached-IsCached r s h)
      ∙ ap (◌∷◌ (built s r s.app)) (serve_all-IsCached requests (served r s) (served-IsCached r s))

  pub serve_all-unbuilt :
      (requests : List Request) (s : Server fs F)
      → s.once ≡ none
      → serve_all requests s ≡ serve_each s.logger s.settings requests s.app
  unfolding IsCached
  serve_all-unbuilt requests s e = serve_all-IsCached requests s (inl e)

  -- A new server answers any requests, one after another, as if the routes were built anew for each of
  -- them: keeping them changes nothing.
  pub serve_all-new_server :
      (parse : Parser F) (encoding : Encoding F) (cfg : ServerConfig fs F) (requests : List Request)
      → let s = new_server fs parse encoding cfg in
        serve_all requests s ≡ serve_each s.logger s.settings requests s.app
  unfolding new_server
  serve_all-new_server parse encoding cfg requests =
      serve_all-unbuilt requests (new_server fs parse encoding cfg) refl
