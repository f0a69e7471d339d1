-- ===== src/Server/Access.antt =====
-- Who may change the server's state.
-- (internal/server/middleware/auth.go, internal/server/routes.go)
use leasewebassignment.Base.{
  true, false, not, ◌||◌, ◌++◌, ◌≡◌, refl, ap, ◌∙◌, ◌↔◌, ◌⊎◌, inl, inr, arith, Bool-cases,
  Option-cases,
}
use leasewebassignment.Text.{Bytes, codes, same, is_empty, cut_prefix}
use leasewebassignment.Text.Laws.{same_iff, same_self, cut_prefix-eq-some}
use leasewebassignment.Text.Case.{Unicode}
use leasewebassignment.Store.Files.{FileSystem}
use leasewebassignment.Server.{
  App, Settings, Call, upload_call, get_servers_call, healthz_call, readyz_call, wrong_method_call,
  no_route_call, serve,
}
use leasewebassignment.Middleware.{is_blocked}
use leasewebassignment.Handlers.Upload.{Form}

blocked-not :
    (key token : Bytes)
    → (is_empty key || not (same token key)) ≡ false
    → (is_empty key ≡ false) × (token ≡ key)
blocked-not key token e =
    let (full, equal) : (is_empty key ≡ false) × (same token key ≡ true) = ground arith in
    (full, (same_iff token key).0 equal)

-- A request passes exactly when a key is configured and its header is "Bearer " and that key.
pub is_blocked_iff :
    (auth_key header : Bytes)
    → (is_blocked auth_key header ≡ false)
      ↔ ((is_empty auth_key ≡ false) × (header ≡ codes "Bearer " ++ auth_key))
unfolding is_blocked
is_blocked_iff auth_key header = (
  λ e. elim (Option-cases (cut_prefix header (codes "Bearer "))) [
    | inl missed ↦ absurd (cc (rw (missed, is_blocked) at e))
    | inr (token, cut) ↦
        let (full, equal) = blocked-not auth_key token (rw (cut, is_blocked) at e) in
        (full, cut_prefix-eq-some header (codes "Bearer ") cut ∙ ap (◌++◌ (codes "Bearer ")) equal)
  ],
  λ (full, text). rw (text, is_blocked) (rw (full, same_self auth_key)),
)

module _ {ℓ} (fs : FileSystem) {F : Type ℓ} ⦃U : Unicode⦄ where
  -- A call leaves the state as it is, or it is an upload whose Authorization header is "Bearer " and
  -- the configured key, which is not empty.
  pub serve_changes :
      (settings : Settings F) (call : Call) (app : App fs F)
      → ((serve fs settings call app).0 ≡ app)
        ⊎ ((form : Form) × (call ≡ upload_call (codes "Bearer " ++ settings.auth_key) form)
            × (is_empty settings.auth_key ≡ false))
  unfolding serve
  serve_changes settings (get_servers_call values if_none_match) app = inl refl
  serve_changes settings (upload_call authorization form) app =
      elim (Bool-cases (is_blocked settings.auth_key authorization)) [
        | inl blocked ↦ inl (rw (blocked, serve))
        | inr passed ↦
            let (full, text) = (is_blocked_iff settings.auth_key authorization).0 passed in
            inr (form, ap (λ a. upload_call a form) text, full)
      ]
  serve_changes settings healthz_call app = inl refl
  serve_changes settings readyz_call app = elim (Bool-cases app.ready) [
    | inl e ↦ inl (rw e refl)
    | inr e ↦ inl (rw e refl)
  ]
  serve_changes settings (wrong_method_call method allowed) app = inl refl
  serve_changes settings (no_route_call method path) app =
      elim (Bool-cases (same path (codes "/"))) [
        | inl e ↦ inl (rw e refl)
        | inr e ↦ inl (rw e refl)
      ]
