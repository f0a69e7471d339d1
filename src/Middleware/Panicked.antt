-- ===== src/Middleware/Panicked.antt =====
-- A request whose handler panics before it has answered.
use leasewebassignment.Base.{
  Bool, true, false, List, [], ◌∷◌, ◌++◌, ◌≡◌, refl, ap, ◌∙◌, if◌then◌else◌,
}
use mathlib.Core.List.{append-nil}
use leasewebassignment.Text.{Bytes}
use leasewebassignment.Errors.{ApiError, internal_error, status_code}
use leasewebassignment.Wire.{Action, set_header, run}
use leasewebassignment.Wire.Laws.{first_status, written, commits, body_for, run-Sends}
use leasewebassignment.Middleware.{
  Request, Handler, Run, returned, panicked, panic_line, generate_request_id, request_id_header,
  request_id_from, accepts_gzip, error_actions, unexpected_error, with_middlewares,
}
use leasewebassignment.Middleware.Stack.{zipped_actions, handled, with_middlewares_lem}
use leasewebassignment.Middleware.Replies.{
  first_status-squeeze, written-squeeze, first_status-append, written-append, written-commits,
  first_status-commits,
}

-- Without compression the client gets the structured 500. With compression it gets a 200, and the
-- error behind an empty compressed stream. The log has the panic, under the identifier of the outer
-- request, and no line for the request.
pub record Recovered {ℓ} {S : Type ℓ} (encode : ApiError → Bytes) (compress : Bytes → Bytes)
    (r : Request) (value : Bytes) (out full : Run S) : Type ℓ where
  pub state_is : full.state ≡ out.state
  pub ending_is : full.ending ≡ returned
  pub status_is : (run full.actions).status ≡ (if accepts_gzip r then 200 else 500)
  pub body_is :
      (run full.actions).body
      ≡ (if accepts_gzip r then compress [] ++ encode unexpected_error else encode unexpected_error)
  pub log_is : full.log ≡ out.log ++ (panic_line value r.path (request_id_from r.context_id) ∷ [])

module _ (encode : ApiError → Bytes) (compress : Bytes → Bytes) (actions : List Action)
    (quiet : commits actions ≡ false) where
  abbrev failed : Bool → Bytes → List Action
  failed zipped id =
      (set_header request_id_header id ∷ zipped_actions compress zipped actions)
      ++ error_actions encode (status_code unexpected_error) unexpected_error

  status-failed :
      (zipped : Bool) (id : Bytes) → first_status (failed zipped id) ≡ (if zipped then 200 else 500)
  unfolding first_status error_actions internal_error status_code
  status-failed true id =
      first_status-squeeze compress actions
        (error_actions encode (status_code unexpected_error) unexpected_error) []
      ∙ first_status-commits actions quiet
  status-failed false id =
      first_status-append actions
        (error_actions encode (status_code unexpected_error) unexpected_error)
      ∙ rw quiet

  written-failed :
      (zipped : Bool) (id : Bytes)
      → written (failed zipped id)
        ≡ (if zipped then compress [] ++ encode unexpected_error else encode unexpected_error)
  unfolding written error_actions
  written-failed true id =
      written-squeeze compress actions
        (error_actions encode (status_code unexpected_error) unexpected_error) []
      ∙ rw (written-commits actions quiet, append-nil (encode unexpected_error))
  written-failed false id =
      written-append actions (error_actions encode (status_code unexpected_error) unexpected_error)
      ∙ rw (written-commits actions quiet, append-nil (encode unexpected_error))

  always_body :
      (zipped : Bool)
      → body_for
          (if zipped then 200 else 500)
          (if zipped then compress [] ++ encode unexpected_error else encode unexpected_error)
        ≡ (if zipped then compress [] ++ encode unexpected_error else encode unexpected_error)
  always_body true = refl
  always_body false = refl

  body-failed :
      (zipped : Bool) (id : Bytes)
      → (run (failed zipped id)).body
        ≡ (if zipped then compress [] ++ encode unexpected_error else encode unexpected_error)
  body-failed zipped id =
      (run-Sends (failed zipped id)).body_is
      ∙ rw (status-failed zipped id, written-failed zipped id) (always_body zipped)

module _ {ℓ} {S : Type ℓ} (encode : ApiError → Bytes) (compress : Bytes → Bytes) (mux : Handler S)
    (r : Request) (s : S) where
  abbrev out : Run S
  out = handled encode compress true mux r s

  -- When the handler panics before it has sent anything, the request is answered all the same: with
  -- the structured 500 if the client does not accept compression; but with status 200, and the error
  -- behind an empty compressed stream, if it does. The log gets the panic, with the identifier of the
  -- request outside the middleware that gives one, and no line for the request.
  pub with_middlewares-Recovered :
      {value : Bytes}
      → out.ending ≡ panicked value
      → commits out.actions ≡ false
      → Recovered encode compress r value out (with_middlewares encode compress true mux r s)
  with_middlewares-Recovered {value} panics quiet =
      let zipped = accepts_gzip r in
      let id = generate_request_id r.random in
      rw (with_middlewares_lem encode compress true mux r s) (
        rw panics (record {
          state_is = refl;
          ending_is = refl;
          status_is =
              (run-Sends (failed encode compress out.actions quiet zipped id)).status_is
              ∙ status-failed encode compress out.actions quiet zipped id;
          body_is = body-failed encode compress out.actions quiet zipped id;
          log_is =
              ap (λ l. l ++ (panic_line value r.path (request_id_from r.context_id) ∷ []))
                (append-nil out.log);
        }))
