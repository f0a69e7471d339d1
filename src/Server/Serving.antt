-- ===== src/Server/Serving.antt =====
-- From a request to the reply: what the server does with every call of its API.
-- (internal/server/server.go, internal/server/routes.go)
use leasewebassignment.Base.{
  ap₂, ◌+◌, ◌<◌, Bool, true, false, not, [], ◌∷◌, ◌++◌, length, Option, none, some, ◌≡◌, refl, sym,
  ap, subst, ◌∙◌, inl, inr, if◌then◌else◌, Result, ok, err,
}
use leasewebassignment.Base.Int.{int_half}
use leasewebassignment.Text.{Bytes, codes, same, contains}
use leasewebassignment.Text.Case.{Unicode}
use leasewebassignment.Errors.{Error}
use leasewebassignment.Store.Catalog.{catalog}
use leasewebassignment.Store.Files.{FileSystem}
use leasewebassignment.Handlers.{Values, max_limit}
use leasewebassignment.Handlers.Page.{ServersResponse, returns, new_handler, handle_get_servers}
use leasewebassignment.Wire.{run}
use leasewebassignment.Wire.Laws.{body_for, run-Sends}
use leasewebassignment.Mux.{found, handler_for}
use leasewebassignment.Middleware.{
  Request, Run, returned, request_line, generate_request_id, request_id_header, accepts_gzip,
}
use leasewebassignment.Middleware.{is_blocked}
use leasewebassignment.Middleware.Identifier.{Identifies, generate_request_id-Identifies}
use leasewebassignment.Middleware.Replies.{IsProper, Leaves}
use leasewebassignment.Middleware.Answered.{Answered, with_middlewares-Answered}
use leasewebassignment.Adapter.{empty, Response, respond, adapt_error, write_json, response_actions}
use leasewebassignment.Adapter.Bodies.{body_text, written-response_actions}
use leasewebassignment.Adapter.Headers.{
  id-Foreign, encoding-Foreign, Leaves-response_actions, IsProper-response_actions,
  first_status-response_actions,
}
use leasewebassignment.Server.{
  App, Settings, Call, upload_call, get_servers_call, healthz_call, readyz_call, wrong_method_call,
  no_route_call, handle_upload, respond_get_servers, respond_upload, serve,
}
use leasewebassignment.Server.Running.{IsRunning}
use leasewebassignment.Server.Listing.{handle_get_servers_lem}
use leasewebassignment.Server.Routes.{
  Library, call, routes, reported_line, answer, handle_endpoint, handle_target, mux, serve_http,
}

module _ {ℓ} (fs : FileSystem) {F : Type ℓ} ⦃U : Unicode⦄ (settings : Settings F) where
  Answers : App fs F × Option Response → Type 0
  Answers (app, answered) = (response : Response) × (answered ≡ some response)

  respond_upload-Answers : (r : App fs F × Option Error) → Answers (respond_upload fs r)
  unfolding respond_upload Answers
  respond_upload-Answers (app, none) = (_, refl)
  respond_upload-Answers (app, some e) = (_, refl)

  choose-Answers :
      (b : Bool) (app : App fs F) (response : Response) (other : App fs F × Option Response)
      → Answers other
      → Answers (if b then (app, some response) else other)
  unfolding Answers
  choose-Answers true app response other h = (response, refl)
  choose-Answers false app response other h = h

  same_state :
      {app : App fs F} (h : IsRunning fs app)
      → app.service ≡ record { repo = some h.repo; files = app.service.files }
  same_state {app} h = rw (← h.repo_is)

  get_servers-Answers :
      (values : Values) (if_none_match : Bytes) (app : App fs F)
      → (result : Result Error (ServersResponse F))
      → handle_get_servers fs (new_handler settings.allowed) app.service values ≡ returns result
      → (response : Response) × (respond_get_servers fs settings values if_none_match app
          ≡ some response)
  unfolding respond_get_servers
  get_servers-Answers values if_none_match app (err e) h =
      (adapt_error e, rw (h, respond_get_servers))
  get_servers-Answers values if_none_match app (ok page) h =
      (write_json settings.encoding 200 page if_none_match, rw (h, respond_get_servers))

  serve-Answers :
      (make : Call) (app : App fs F) (h : IsRunning fs app)
      → length (catalog h.repo) + max_limit < int_half
      → Answers (serve fs settings make app)
  unfolding serve Answers
  serve-Answers (get_servers_call values if_none_match) app h room =
      let same_run =
        ap (λ st. handle_get_servers fs (new_handler settings.allowed) st values) (same_state h) in
      elim (handle_get_servers_lem fs (new_handler settings.allowed) h.repo app.service.files values
        h.indexed room) [
          | inl listed ↦
              get_servers-Answers values if_none_match app _ (same_run ∙ listed.outcome_is)
          | inr rejected ↦
              get_servers-Answers values if_none_match app _ (same_run ∙ rejected.outcome_is)
        ]
  serve-Answers (upload_call authorization form) app h room =
      choose-Answers (is_blocked settings.auth_key authorization) app _ _
        (respond_upload-Answers (handle_upload fs settings.parse form app))
  serve-Answers healthz_call app h room = (_, refl)
  serve-Answers readyz_call app h room =
      choose-Answers (not app.ready) app _ _ (respond 200 empty, refl)
  serve-Answers (wrong_method_call method allowed) app h room = (_, refl)
  serve-Answers (no_route_call method path) app h room =
      choose-Answers (same path (codes "/")) app _ _ (_, refl)

  module _ (lib : Library) where
    -- the request as the handlers get it
    abbrev pub identified_request : Request → Request
    identified_request r = record r { context_id = some (generate_request_id r.random) }

    -- The call is answered: the client gets a response, the one that `serve` gives, with the request's
    -- identifier, compressed if the client accepts that, and the log gets a line with its status and
    -- identifier, after the line of an error if `Adapt` reports one.
    pub record Served (r : Request) (make : Request → Call) (app : App fs F) (full : Run (App fs F))
        : Type ℓ where
      pub id : Bytes
      pub identifies : Identifies r.random id
      pub response : Response
      pub response_is :
          serve fs settings (make (record r { context_id = some id })) app
          ≡ (full.state, some response)
      pub ending_is : full.ending ≡ returned
      pub status_is : (run full.actions).status ≡ response.status
      pub body_is :
          let plain = body_for response.status (body_text lib.encode r.method response.body) in
          (run full.actions).body ≡ (
            if contains r.accept_encoding (codes "gzip")
            then body_for response.status (lib.compress plain)
            else plain)
      pub id_is : (run full.actions).headers (codes "X-Request-Id") ≡ id ∷ []
      pub log_is :
          full.log
          ≡ reported_line true r.path response
            ++ (request_line r.method r.path response.status id r.remote_addr ∷ [])

    answer-Served :
        (r : Request) (make : Request → Call) (app after : App fs F) (response : Response)
        → serve fs settings (make (identified_request r)) app ≡ (after, some response)
        → (full : Run (App fs F))
        → Answered lib.compress r
            (answer lib true (identified_request r) (after, some response))
            full
        → Served r make app full
    unfolding answer
    answer-Served r make app after response served full h =
        let status_is : (run full.actions).status ≡ response.status =
          h.status_is
          ∙ (run-Sends (response_actions lib.encode r.method response)).status_is
          ∙ first_status-response_actions lib.encode r.method response in
        let plain_is : (run (response_actions lib.encode r.method response)).body
            ≡ body_for response.status (body_text lib.encode r.method response.body) =
          (run-Sends (response_actions lib.encode r.method response)).body_is
          ∙ ap₂ body_for (first_status-response_actions lib.encode r.method response)
              (written-response_actions lib.encode r.method response) in
        record {
          id = generate_request_id r.random;
          identifies = generate_request_id-Identifies r.random;
          response = response;
          response_is = served ∙ ap (λ a. (a, some response)) (sym h.state_is);
          ending_is = h.ending_is;
          status_is = status_is;
          body_is =
              h.body_is
              ∙ ap
                  (λ status.
                    if accepts_gzip r
                    then body_for status
                        (lib.compress (run (response_actions lib.encode r.method response)).body)
                    else (run (response_actions lib.encode r.method response)).body)
                  (sym h.status_is ∙ status_is)
              ∙ ap
                  (λ plain.
                    if accepts_gzip r then body_for response.status (lib.compress plain) else plain)
                  plain_is;
          id_is = h.id_is;
          log_is =
              h.log_is
              ∙ ap
                  (λ status.
                    reported_line true r.path response
                    ++ (request_line r.method r.path status (generate_request_id r.random)
                          r.remote_addr
                        ∷ []))
                  status_is;
        }

    mux-call :
        (r : Request) (make : Request → Call) (app : App fs F)
        → handler_for routes r.method r.escaped_path ≡ found (call make)
        → mux fs lib true settings r app ≡ answer lib true r (serve fs settings (make r) app)
    unfolding mux handle_target handle_endpoint
    mux-call r make app route = rw (route, mux)

    -- Every request that the routes lead to a call, in a state that a server can be in, whose catalog
    -- leaves room for a page in an int, is answered as `serve` says: nothing panics.
    pub serve_http-Served :
        (r : Request) (make : Request → Call) (app : App fs F) (h : IsRunning fs app)
        → length (catalog h.repo) + max_limit < int_half
        → handler_for routes r.method r.escaped_path ≡ found (call make)
        → Served r make app (serve_http fs lib true settings r app)
    unfolding serve_http answer Answers
    serve_http-Served r make app h room route =
        let (response, answered) = serve-Answers (make (identified_request r)) app h room in
        let after = (serve fs settings (make (identified_request r)) app).0 in
        let served : serve fs settings (make (identified_request r)) app ≡ (after, some response) =
          ap (λ a. (after, a)) answered in
        let ran : mux fs lib true settings (identified_request r) app
            ≡ answer lib true (identified_request r) (after, some response) =
          mux-call (identified_request r) make app route
          ∙ ap (answer lib true (identified_request r)) served in
        answer-Served r make app after response served _ (
          subst (λ out. Answered lib.compress r out (serve_http fs lib true settings r app)) ran
            (with_middlewares-Answered lib.encode lib.compress (mux fs lib true settings) r app
              (ap (λ (out : Run (App fs F)). out.ending) ran)
              (subst (λ out. IsProper false out.actions) (sym ran)
                (IsProper-response_actions lib.encode r.method response))
              (subst (λ out. Leaves request_id_header out.actions) (sym ran)
                (Leaves-response_actions request_id_header id-Foreign lib.encode r.method response))
              (subst (λ out. Leaves (codes "Content-Encoding") out.actions) (sym ran)
                (Leaves-response_actions (codes "Content-Encoding") encoding-Foreign lib.encode
                  r.method response))))
