-- ===== src/Server/Running.antt =====
-- The states that a server can be in, from its start on. (cmd/main.go, internal/server/routes.go)
use leasewebassignment.Base.{
  Bool, true, false, not, [], Option, none, some, ◌≡◌, refl, sym, ap, ◌∙◌, inl, inr, if◌then◌else◌,
  Bool-cases, Option-cases, Result-cases, Result,
}
use leasewebassignment.Text.{Bytes, codes, same}
use leasewebassignment.Text.Case.{Unicode}
use leasewebassignment.Errors.{Error}
use leasewebassignment.Store.{MemoryRepository, new_memory_repository}
use leasewebassignment.Store.Catalog.{catalog, IsIndexed, replace_servers-IsIndexed}
use leasewebassignment.Store.Path.{base}
use leasewebassignment.Store.Files.{FileSystem, IsFileSystem}
use leasewebassignment.Service.{ServiceState, Parser, upload_server_data, load_server_data}
use leasewebassignment.Service.Replace.{upload_server_data_ok, upload_server_data_err}
use leasewebassignment.Server.{
  App, Settings, Call, upload_call, get_servers_call, healthz_call, readyz_call, wrong_method_call,
  no_route_call, handle_upload, respond_upload, serve, start,
}
use leasewebassignment.Adapter.{Response, respond, empty, redirect_to}
use leasewebassignment.Middleware.{is_blocked}
use leasewebassignment.Handlers.Upload.{Form, new_upload_server_request}

module _ {ℓ} (fs : FileSystem) {F : Type ℓ} ⦃U : Unicode⦄ where
  -- The repository is there and indexed, and it is empty as long as the server is not ready.
  pub record IsRunning (app : App fs F) : Type ℓ where
    pub repo : MemoryRepository F
    pub repo_is : app.service.repo ≡ some repo
    pub indexed : IsIndexed repo
    pub empty_until_ready : app.ready ≡ false → catalog repo ≡ []

  -- The states of a server that starts with these files and then answers calls, one after another.
  pub data Reaches (settings : Settings F) (upload_dir data_file : Bytes) (files : fs.State)
      : App fs F → Type ℓ where
    started :
        Reaches settings upload_dir data_file files (start fs settings upload_dir data_file files)
    served :
        {app : App fs F} (call : Call)
        → Reaches settings upload_dir data_file files app
        → Reaches settings upload_dir data_file files (serve fs settings call app).0

  pub same_app :
      (b : Bool) (app : App fs F) (r r' : Option Response)
      → (if◌then◌else◌ {A = App fs F × Option Response} b (app, r) (app, r')).0 ≡ app
  same_app true app r r' = refl
  same_app false app r r' = refl

  module _ (ax : IsFileSystem fs) where
    -- After an upload to an indexed repository there is an indexed one; it is the one before if the
    -- upload failed.
    abbrev Uploaded : MemoryRepository F → ServiceState fs F × Option Error → Type ℓ
    Uploaded r (st, failed) =
        (r' : MemoryRepository F) × (st.repo ≡ some r')
        × IsIndexed r'
        × ((e : Error) → failed ≡ some e → r' ≡ r)

    upload-Uploaded :
        (parse : Parser F) (filename : Bytes) (read : Result Error Bytes) (st : ServiceState fs F)
        (r : MemoryRepository F)
        → st.repo ≡ some r
        → IsIndexed r
        → Uploaded r (upload_server_data fs parse filename read st)
    upload-Uploaded parse filename read st r here indexed =
        let same_state : st ≡ record { repo = some r; files = st.files } = rw (← here) refl in
        rw same_state
          (elim (Option-cases
            (upload_server_data fs parse filename read
              (record { repo = some r; files = st.files })).1) [
                | inl done ↦
                    let (content, servers, _, _, took) =
                      upload_server_data_ok fs ax parse filename r st.files read done in
                    (
                      took.repo,
                      took.repo_is,
                      took.indexed,
                      λ e failed. absurd (cc (sym done ∙ failed)),
                    )
                | inr (e, failed) ↦
                    let refused =
                      upload_server_data_err fs ax parse filename r st.files read e failed in
                    (r, refused.repo_is, indexed, λ _ _. refl)
              ])

    handle_upload-IsRunning :
        (parse : Parser F) (form : Form) (app : App fs F)
        → IsRunning app
        → IsRunning (handle_upload fs parse form app).0
    unfolding handle_upload
    handle_upload-IsRunning parse form app h =
        elim (Result-cases (new_upload_server_request form)) [
          | inr (e, bad) ↦ rw (bad, handle_upload) h
          | inl (file, good) ↦
              let (r', here, indexed, kept) =
                upload-Uploaded parse file.filename file.content app.service h.repo h.repo_is
                  h.indexed in
              rw (good, handle_upload)
                (elim (Option-cases
                  (upload_server_data fs parse file.filename file.content app.service).1) [
                    | inl done ↦ rw done (record {
                      repo = r';
                      repo_is = here;
                      indexed = indexed;
                      empty_until_ready = λ unready. absurd (cc unready);
                    })
                    | inr (e, failed) ↦ rw failed (record {
                      repo = r';
                      repo_is = here;
                      indexed = indexed;
                      empty_until_ready =
                          λ unready. ap catalog (kept e failed) ∙ h.empty_until_ready unready;
                    })
                  ])
        ]

    respond_upload-app : (r : App fs F × Option Error) → (respond_upload fs r).0 ≡ r.0
    unfolding respond_upload
    respond_upload-app (app, none) = refl
    respond_upload-app (app, some e) = refl

    pub serve-IsRunning :
        (settings : Settings F) (call : Call) (app : App fs F)
        → IsRunning app
        → IsRunning (serve fs settings call app).0
    unfolding serve
    serve-IsRunning settings (get_servers_call values if_none_match) app h = h
    serve-IsRunning settings (upload_call authorization form) app h =
        elim (Bool-cases (is_blocked settings.auth_key authorization)) [
          | inl blocked ↦ rw (blocked, serve) h
          | inr passed ↦
              rw (passed, serve)
                (rw (respond_upload-app (handle_upload fs settings.parse form app))
                  (handle_upload-IsRunning settings.parse form app h))
        ]
    serve-IsRunning settings healthz_call app h = h
    serve-IsRunning settings readyz_call app h =
        rw (same_app (not app.ready) app _ (some (respond 200 empty))) h
    serve-IsRunning settings (wrong_method_call method allowed) app h = h
    serve-IsRunning settings (no_route_call method path) app h =
        rw
          (same_app (same path (codes "/")) app (some (respond 302 (redirect_to (codes "/ui/")))) _)
          h

    load-IsRunning :
        (parse : Parser F) (upload_dir data_file : Bytes) (files : fs.State)
        → Uploaded (new_memory_repository upload_dir) (
            load_server_data fs parse data_file
              (record { repo = some (new_memory_repository upload_dir); files = files }))
    unfolding load_server_data
    load-IsRunning parse upload_dir data_file files =
        let r = new_memory_repository upload_dir in
        let (indexed, _, _) = replace_servers-IsIndexed upload_dir r [] in
        elim (Result-cases (fs.open_file data_file files)) [
          | inr (e, failed) ↦ rw (failed, load_server_data) (r, refl, indexed, λ _ _. refl)
          | inl (read, opened) ↦
              rw (opened, load_server_data)
                (upload-Uploaded parse (base data_file) read
                  (record { repo = some r; files = files }) r refl indexed)
        ]

    start-IsRunning :
        (settings : Settings F) (upload_dir data_file : Bytes) (files : fs.State)
        → IsRunning (start fs settings upload_dir data_file files)
    unfolding start
    start-IsRunning settings upload_dir data_file files =
        let r = new_memory_repository upload_dir in
        let st : ServiceState fs F = record { repo = some r; files = files } in
        let (_, nothing, _) = replace_servers-IsIndexed upload_dir r [] in
        let (r', here, indexed, kept) = load-IsRunning settings.parse upload_dir data_file files in
        elim (Option-cases (load_server_data fs settings.parse data_file st).1) [
          | inl done ↦
              rw (done, start)
                (record {
                  repo = r';
                  repo_is = here;
                  indexed = indexed;
                  empty_until_ready = λ unready. absurd (cc unready);
                })
          | inr (e, failed) ↦
              rw (failed, start)
                (record {
                  repo = r';
                  repo_is = here;
                  indexed = indexed;
                  empty_until_ready = λ _. ap catalog (kept e failed) ∙ nothing;
                })
        ]

    -- In every state that a server reaches, whatever the data file, the calls and the failures of
    -- the file system, there is an indexed repository, which is empty as long as the server is not
    -- ready.
    pub Reaches-IsRunning :
        (settings : Settings F) (upload_dir data_file : Bytes) (files : fs.State) (app : App fs F)
        → Reaches settings upload_dir data_file files app
        → IsRunning app
    Reaches-IsRunning settings upload_dir data_file files _ started =
        start-IsRunning settings upload_dir data_file files
    Reaches-IsRunning settings upload_dir data_file files _ (served {app} call h) =
        serve-IsRunning settings call app
          (Reaches-IsRunning settings upload_dir data_file files app h)
