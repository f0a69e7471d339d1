-- ===== src/Server/Requests.antt =====
-- The states that requests can bring a server to. (internal/server/server.go,
-- internal/server/routes.go)
use leasewebassignment.Base.{
  Bool, List, [], ◌∷◌, Option, none, some, ◌≡◌, refl, sym, ap, subst, ◌∙◌, ◌⊎◌, inl, inr,
}
use leasewebassignment.Text.{Bytes}
use leasewebassignment.Text.Case.{Unicode}
use leasewebassignment.Errors.{ApiError}
use leasewebassignment.Store.Files.{FileSystem, IsFileSystem}
use leasewebassignment.Mux.{Target, moved, found, nowhere, handler_for}
use leasewebassignment.Middleware.{Request, Run, Ending, returned, panicked, after_panic}
use leasewebassignment.Middleware.Stack.{identified, inside, handled, with_middlewares_lem}
use leasewebassignment.Adapter.{Response}
use leasewebassignment.Server.{App, Settings, Call, serve, start}
use leasewebassignment.Server.Running.{IsRunning, Reaches, served, started, Reaches-IsRunning}
use leasewebassignment.Server.Routes.{
  Library, Endpoint, call, ui, docs, openapi_file, routes, answer, handle_endpoint, handle_target,
  mux, serve_http,
}

state-after_panic {ℓ} :
    {S : Type ℓ} (encode : ApiError → Bytes) (logger : Bool) (r : Request) (out : Run S)
    (ending : Ending)
    → (after_panic encode logger r out ending).state ≡ out.state
state-after_panic encode logger r out returned = refl
state-after_panic encode logger r out (panicked value) = refl

state-answer {ℓ} :
    {S : Type ℓ} (lib : Library) (logger : Bool) (r : Request) (result : S × Option Response)
    → (answer lib logger r result).state ≡ result.0
unfolding answer
state-answer lib logger r (s, none) = refl
state-answer lib logger r (s, some response) = refl

module _ {ℓ} (fs : FileSystem) {F : Type ℓ} ⦃U : Unicode⦄ (lib : Library) (logger : Bool)
    (settings : Settings F) where
  -- The state is as it was, or as a call leaves it.
  IsCalled : App fs F → App fs F → Type ℓ
  IsCalled app after = (after ≡ app) ⊎ ((make : Call) × (after ≡ (serve fs settings make app).0))

  handle_endpoint-IsCalled :
      (endpoint : Endpoint) (r : Request) (app : App fs F)
      → IsCalled app (handle_endpoint fs lib logger settings endpoint r app).state
  unfolding IsCalled handle_endpoint
  handle_endpoint-IsCalled (call make) r app =
      inr (make r, state-answer lib logger r (serve fs settings (make r) app))
  handle_endpoint-IsCalled ui r app = inl refl
  handle_endpoint-IsCalled docs r app = inl refl
  handle_endpoint-IsCalled openapi_file r app = inl refl

  handle_target-IsCalled :
      (target : Target Endpoint) (r : Request) (app : App fs F)
      → IsCalled app (handle_target fs lib logger settings target r app).state
  unfolding IsCalled handle_target
  handle_target-IsCalled (moved path) r app = inl refl
  handle_target-IsCalled (found endpoint) r app = handle_endpoint-IsCalled endpoint r app
  handle_target-IsCalled nowhere r app = inl refl

  state-serve_http :
      (r : Request) (app : App fs F)
      → (serve_http fs lib logger settings r app).state
        ≡ (mux fs lib logger settings
            (identified lib.encode lib.compress logger (mux fs lib logger settings) r app)
            app).state
  unfolding serve_http
  state-serve_http r app =
      let handler = mux fs lib logger settings in
      ap (λ (out : Run (App fs F)). out.state)
        (with_middlewares_lem lib.encode lib.compress logger handler r app)
      ∙ state-after_panic lib.encode logger r (inside lib.encode lib.compress logger handler r app)
          (handled lib.encode lib.compress logger handler r app).ending

  serve_http-IsCalled :
      (r : Request) (app : App fs F) → IsCalled app (serve_http fs lib logger settings r app).state
  unfolding mux
  serve_http-IsCalled r app =
      rw (state-serve_http r app)
        (handle_target-IsCalled (handler_for routes r.method r.escaped_path) _ app)

  -- the state after some requests, one after another
  unfoldable pub after_requests : List Request → App fs F → App fs F
  unfolding serve_http
  after_requests [] app = app
  after_requests (r ∷ rest) app =
      after_requests rest (serve_http fs lib logger settings r app).state

  module _ (upload_dir data_file : Bytes) (files : fs.State) where
    IsCalled-Reaches :
        {app after : App fs F}
        → IsCalled app after
        → Reaches fs settings upload_dir data_file files app
        → Reaches fs settings upload_dir data_file files after
    unfolding IsCalled
    IsCalled-Reaches (inl same) h =
        subst (Reaches fs settings upload_dir data_file files) (sym same) h
    IsCalled-Reaches (inr (make, called)) h =
        subst (Reaches fs settings upload_dir data_file files) (sym called) (served make h)

    after_requests-Reaches :
        (requests : List Request) (app : App fs F)
        → Reaches fs settings upload_dir data_file files app
        → Reaches fs settings upload_dir data_file files (after_requests requests app)
    unfolding after_requests
    after_requests-Reaches [] app h = h
    after_requests-Reaches (r ∷ rest) app h =
        after_requests-Reaches rest _ (IsCalled-Reaches (serve_http-IsCalled r app) h)

    -- After its start, with any data file, and any requests one after another, whatever their methods,
    -- paths, headers and bodies, a server has an indexed repository, which is empty as long as the
    -- server is not ready.
    pub after_requests-IsRunning :
        (ax : IsFileSystem fs) (requests : List Request)
        → IsRunning fs (after_requests requests (start fs settings upload_dir data_file files))
    after_requests-IsRunning ax requests =
        Reaches-IsRunning fs ax settings upload_dir data_file files _
          (after_requests-Reaches requests _ started)
