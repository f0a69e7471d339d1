-- ===== src/Server/Uploads.antt =====
-- What an upload does to the catalog that queries see. (internal/server/routes.go,
-- internal/server/handlers/servers.go, internal/service/service.go)
use leasewebassignment.Base.{
  true, false, not, List, Option, none, some, ◌≡◌, refl, sym, ap, ◌∙◌, ◌⊎◌, inl, inr, Bool-cases,
  Option-cases, Result-cases, ok,
}
use leasewebassignment.Text.{Bytes, codes, same}
use leasewebassignment.Text.Case.{Unicode}
use leasewebassignment.Errors.{Error}
use leasewebassignment.Model.{Server}
use leasewebassignment.Store.{MemoryRepository}
use leasewebassignment.Store.Catalog.{catalog}
use leasewebassignment.Store.Files.{FileSystem, IsFileSystem}
use leasewebassignment.Service.{ServiceState, upload_server_data}
use leasewebassignment.Service.Replace.{upload_server_data_ok, upload_server_data_err}
use leasewebassignment.Handlers.Upload.{Form, FormFile, new_upload_server_request}
use leasewebassignment.Middleware.{is_blocked}
use leasewebassignment.Adapter.{Response, respond, empty}
use leasewebassignment.Server.{
  App, Settings, Call, upload_call, get_servers_call, healthz_call, readyz_call, wrong_method_call,
  no_route_call, handle_upload, respond_upload, serve,
}
use leasewebassignment.Server.Running.{IsRunning, same_app}

module _ {ℓ} (fs : FileSystem) {F : Type ℓ} ⦃U : Unicode⦄ where
  -- The call was an upload of a file that holds these servers, and they are the catalog now.
  pub record Uploads (settings : Settings F) (make : Call) (after : App fs F)
      (answered : Option Response) : Type ℓ where
    pub authorization : Bytes
    pub form : Form
    pub call_is : make ≡ upload_call authorization form
    pub passed : is_blocked settings.auth_key authorization ≡ false
    pub file : FormFile
    pub file_is : new_upload_server_request form ≡ ok file
    pub content : Bytes
    pub content_is : file.content ≡ ok content
    pub servers : List (Server F)
    pub parsed : settings.parse content ≡ ok servers
    pub repo : MemoryRepository F
    pub repo_is : after.service.repo ≡ some repo
    pub catalog_is : catalog repo ≡ servers
    pub ready : after.ready ≡ true
    pub answer_is : answered ≡ some (respond 204 empty)

  module _ (ax : IsFileSystem fs) (settings : Settings F) (app : App fs F)
      (h : IsRunning fs app) where
    abbrev here : ServiceState fs F
    here = record { repo = some h.repo; files = app.service.files }

    same_state : app.service ≡ here
    same_state = rw (← h.repo_is)

    abbrev uploaded : FormFile → ServiceState fs F × Option Error
    uploaded file = upload_server_data fs settings.parse file.filename file.content here

    uploaded-here :
        (file : FormFile)
        → upload_server_data fs settings.parse file.filename file.content app.service
          ≡ uploaded file
    uploaded-here file =
        ap (upload_server_data fs settings.parse file.filename file.content) same_state

    handle_upload-done :
        (form : Form) (file : FormFile)
        → new_upload_server_request form ≡ ok file
        → (uploaded file).1 ≡ none
        → handle_upload fs settings.parse form app
          ≡ (record { service = (uploaded file).0; ready = true }, none)
    unfolding handle_upload
    handle_upload-done form file good done =
        rw (good, handle_upload)
          (rw (ap (λ r. r.1) (uploaded-here file) ∙ done) (
            ap
              (λ (r : ServiceState fs F × Option Error).
                (record { service = r.0; ready = true }, none))
              (uploaded-here file)))

    handle_upload-failed :
        (form : Form) (file : FormFile) (e : Error)
        → new_upload_server_request form ≡ ok file
        → (uploaded file).1 ≡ some e
        → handle_upload fs settings.parse form app
          ≡ (record app { service = (uploaded file).0 }, some e)
    unfolding handle_upload
    handle_upload-failed form file e good failed =
        rw (good, handle_upload)
          (rw (ap (λ r. r.1) (uploaded-here file) ∙ failed) (
            ap (λ (r : ServiceState fs F × Option Error). (record app { service = r.0 }, some e))
              (uploaded-here file)))

    -- What is to show of an upload.
    abbrev Shown : Bytes → Form → App fs F × Option Error → Type ℓ
    Shown authorization form result =
        let after = respond_upload fs result in
        (after.0.service.repo ≡ app.service.repo)
        ⊎ Uploads settings (upload_call authorization form) after.0 after.1

    upload-Uploads :
        (authorization : Bytes) (form : Form)
        → is_blocked settings.auth_key authorization ≡ false
        → Shown authorization form (handle_upload fs settings.parse form app)
    unfolding respond_upload handle_upload
    upload-Uploads authorization form passed =
        elim (Result-cases (new_upload_server_request form)) [
          | inr (e, bad) ↦ rw (bad, handle_upload) (inl refl)
          | inl (file, good) ↦ elim (Option-cases (uploaded file).1) [
            | inr (e, failed) ↦
                let refused =
                  upload_server_data_err fs ax settings.parse file.filename h.repo app.service.files
                    file.content e failed in
                rw (handle_upload-failed form file e good failed)
                  (inl (refused.repo_is ∙ sym h.repo_is))
            | inl done ↦
                let (content, servers, read, parsed, took) =
                  upload_server_data_ok fs ax settings.parse file.filename h.repo app.service.files
                    file.content done in
                rw (handle_upload-done form file good done) (
                  inr (record {
                    authorization = authorization;
                    form = form;
                    call_is = refl;
                    passed = passed;
                    file = file;
                    file_is = good;
                    content = content;
                    content_is = read;
                    servers = servers;
                    parsed = parsed;
                    repo = took.repo;
                    repo_is = took.repo_is;
                    catalog_is = took.catalog_is;
                    ready = refl;
                    answer_is = refl;
                  }))
          ]
        ]

    same_repo : {after : App fs F} → after ≡ app → after.service.repo ≡ app.service.repo
    same_repo e = ap (λ (a : App fs F). a.service.repo) e

    -- In a state that a server can be in, a call leaves the catalog as it is, or it is an authorized
    -- upload, answered with 204, of a file that the parser makes servers of, and these servers, in
    -- their order, are the catalog that the next query sees.
    pub serve-Uploads :
        (make : Call)
        → let after = serve fs settings make app in
          (after.0.service.repo ≡ app.service.repo) ⊎ Uploads settings make after.0 after.1
    unfolding serve
    serve-Uploads (get_servers_call values if_none_match) = inl refl
    serve-Uploads (upload_call authorization form) =
        elim (Bool-cases (is_blocked settings.auth_key authorization)) [
          | inl blocked ↦ inl (rw (blocked, serve))
          | inr passed ↦ rw (passed, serve) (upload-Uploads authorization form passed)
        ]
    serve-Uploads healthz_call = inl refl
    serve-Uploads readyz_call =
        inl (same_repo (same_app fs (not app.ready) app _ (some (respond 200 empty))))
    serve-Uploads (wrong_method_call method allowed) = inl refl
    serve-Uploads (no_route_call method path) =
        inl (same_repo (same_app fs (same path (codes "/")) app _ _))
