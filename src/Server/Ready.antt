-- ===== src/Server/Ready.antt =====
-- The flag behind `GET /readyz`. (internal/server/routes.go, internal/server/handlers/servers.go)
use leasewebassignment.Base.{
  true, not, Option, none, some, ◌≡◌, ◌≢◌, refl, sym, ap, ◌∙◌, ◌↔◌, ◌⊎◌, inl, inr, Bool-cases,
  Option-cases, Result-cases,
}
use leasewebassignment.Text.{codes, same}
use leasewebassignment.Text.Case.{Unicode}
use leasewebassignment.Errors.{Error, ApiError}
use leasewebassignment.Api.{map_error}
use leasewebassignment.Store.Files.{FileSystem}
use leasewebassignment.Service.{Parser, upload_server_data}
use leasewebassignment.Server.{
  App, Settings, Call, upload_call, get_servers_call, healthz_call, readyz_call, wrong_method_call,
  no_route_call, handle_upload, respond_upload, serve,
}
use leasewebassignment.Adapter.{
  Response, Body, empty, adapt_error, error_body, respond, write_error, redirect_to,
}
use leasewebassignment.Middleware.{is_blocked}
use leasewebassignment.Handlers.Upload.{Form, new_upload_server_request}
use leasewebassignment.Server.Running.{same_app}

abbrev body_of : Option Response → Body
body_of none = empty
body_of (some response) = response.body

error_body-empty : (a : ApiError) → error_body a ≢ empty
error_body-empty a h = cc

write_error-empty : (e : Error) → some (write_error e) ≢ some (respond 204 empty)
unfolding write_error
write_error-empty e h = error_body-empty (map_error (some e)).1 (ap body_of h)

adapt_error-empty : (e : Error) → some (adapt_error e) ≢ some (respond 204 empty)
unfolding adapt_error write_error
adapt_error-empty e h = error_body-empty (map_error (some e)).1 (ap body_of h)

pub IsUpload : Call → Type 0
IsUpload (upload_call authorization form) = Unit
IsUpload _ = ⊥

module _ {ℓ} (fs : FileSystem) {F : Type ℓ} ⦃U : Unicode⦄ where
  -- The upload is done and the server ready, or it failed and the flag is as it was.
  Marked : App fs F → App fs F × Option Error → Type 0
  Marked before (after, failed) =
      ((failed ≡ none) × (after.ready ≡ true))
      ⊎ ((e : Error) × (failed ≡ some e) × (after.ready ≡ before.ready))

  handle_upload-Marked :
      (parse : Parser F) (form : Form) (app : App fs F)
      → Marked app (handle_upload fs parse form app)
  unfolding handle_upload Marked
  handle_upload-Marked parse form app = elim (Result-cases (new_upload_server_request form)) [
    | inr (e, bad) ↦ rw (bad, handle_upload) (inr (e, refl, refl))
    | inl (file, good) ↦
        rw (good, handle_upload)
          (elim (Option-cases
            (upload_server_data fs parse file.filename file.content app.service).1) [
              | inl done ↦ rw done (inl (refl, refl))
              | inr (e, failed) ↦ rw failed (inr (e, refl, refl))
            ])
  ]

  respond_upload-Marked :
      (before : App fs F) (r : App fs F × Option Error)
      → Marked before r
      → ((respond_upload fs r).0.ready ≡ true)
        ↔ ((before.ready ≡ true) ⊎ ((respond_upload fs r).1 ≡ some (respond 204 empty)))
  unfolding respond_upload Marked
  respond_upload-Marked before (after, none) (inl (_, ready)) = (λ _. inr refl, λ _. ready)
  respond_upload-Marked before (after, none) (inr (e, failed, _)) = cc
  respond_upload-Marked before (after, some e) (inl (done, _)) = cc
  respond_upload-Marked before (after, some e) (inr (_, _, kept)) = (
    λ ready. inl (sym kept ∙ ready),
    λ h. elim h [ inl ready ↦ kept ∙ ready | inr sent ↦ absurd (adapt_error-empty e sent) ],
  )

  unchanged :
      (app app' : App fs F) {P : Type 0}
      → app' ≡ app
      → (app'.ready ≡ true) ↔ ((app.ready ≡ true) ⊎ (⊥ × P))
  unchanged app app' e = (
    λ ready. inl (ap (λ (a : App fs F). a.ready) (sym e) ∙ ready),
    λ h. elim h [
      | inl ready ↦ ap (λ (a : App fs F). a.ready) e ∙ ready
      | inr (impossible, _) ↦ absurd impossible
    ],
  )

  -- The server is ready after a call exactly when it was ready before it, or the call was an upload
  -- that was answered with 204.
  pub serve-ready_iff :
      (settings : Settings F) (call : Call) (app : App fs F)
      → ((serve fs settings call app).0.ready ≡ true) ↔ (
          (app.ready ≡ true)
          ⊎ (IsUpload call × ((serve fs settings call app).1 ≡ some (respond 204 empty))))
  unfolding serve IsUpload
  serve-ready_iff settings (get_servers_call values if_none_match) app = unchanged app app refl
  serve-ready_iff settings (upload_call authorization form) app =
      elim (Bool-cases (is_blocked settings.auth_key authorization)) [
        | inl blocked ↦
            rw (blocked, serve)
              (
                λ ready. inl ready,
                λ h. elim h [
                  | inl ready ↦ ready
                  | inr (_, sent) ↦ absurd (write_error-empty _ sent)
                ],
              )
        | inr passed ↦
            let mark =
              respond_upload-Marked app (handle_upload fs settings.parse form app)
                (handle_upload-Marked settings.parse form app) in
            rw (passed, serve)
              (
                λ ready. elim (mark.0 ready) [ inl was ↦ inl was | inr sent ↦ inr (tt, sent) ],
                λ h. elim h [ inl was ↦ mark.1 (inl was) | inr (_, sent) ↦ mark.1 (inr sent) ],
              )
      ]
  serve-ready_iff settings healthz_call app = unchanged app app refl
  serve-ready_iff settings readyz_call app =
      unchanged app _ (same_app fs (not app.ready) app _ (some (respond 200 empty)))
  serve-ready_iff settings (wrong_method_call method allowed) app = unchanged app app refl
  serve-ready_iff settings (no_route_call method path) app =
      unchanged app _ (
        same_app fs (same path (codes "/")) app (some (respond 302 (redirect_to (codes "/ui/")))) _)
