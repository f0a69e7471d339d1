-- ===== src/Middleware/Answered.antt =====
-- A request whose handler returns: the reply, the identifier and the log line.
use leasewebassignment.Base.{
  ℕ, Bool, true, false, List, [], ◌∷◌, ◌++◌, ◌≡◌, refl, sym, ap, ◌∙◌, if◌then◌else◌, inl, inr,
  Bool-cases,
}
use mathlib.Core.List.{append-nil}
use leasewebassignment.Text.{Bytes, codes, same}
use leasewebassignment.Errors.{ApiError}
use leasewebassignment.Wire.{Action, set_header, allows_body, run}
use leasewebassignment.Wire.Laws.{first_status, written, sent_values, body_for, run-Sends}
use leasewebassignment.Middleware.{
  Request, Handler, Run, returned, request_line, generate_request_id, request_id_header, recorded,
  squeeze, accepts_gzip, with_middlewares,
}
use leasewebassignment.Middleware.Stack.{zipped_actions, handled, with_middlewares_lem}
use leasewebassignment.Middleware.Replies.{
  IsProper, Leaves, recorded-first_status, first_status-squeeze, written-squeeze, Leaves-squeeze,
  IsProper-squeeze, sent_values-Leaves,
}

-- The client's reply is the handler's, with the request's identifier, and compressed if the client
-- accepts that; one line of the log names the same request, status and identifier.
pub record Answered {ℓ} {S : Type ℓ} (compress : Bytes → Bytes) (r : Request) (out full : Run S)
    : Type ℓ where
  pub state_is : full.state ≡ out.state
  pub ending_is : full.ending ≡ returned
  pub status_is : (run full.actions).status ≡ (run out.actions).status
  pub body_is : (run full.actions).body ≡ (
      if accepts_gzip r
      then body_for (run out.actions).status (compress (run out.actions).body)
      else (run out.actions).body)
  pub encoding_is :
      (run full.actions).headers (codes "Content-Encoding")
      ≡ (if accepts_gzip r then codes "gzip" ∷ [] else [])
  pub id_is : (run full.actions).headers request_id_header ≡ generate_request_id r.random ∷ []
  pub log_is :
      full.log
      ≡ out.log
        ++ (request_line r.method r.path
              (run full.actions).status
              (generate_request_id r.random)
              r.remote_addr
            ∷ [])

body_for-compress :
    (compress : Bytes → Bytes) (status : ℕ) (bytes : Bytes)
    → body_for status (compress bytes) ≡ body_for status (compress (body_for status bytes))
body_for-compress compress status bytes = elim (Bool-cases (allows_body status)) [
  | inl has ↦ rw has
  | inr lacks ↦ rw lacks
]

module _ (compress : Bytes → Bytes) (actions : List Action) where
  abbrev outer : Bool → Bytes → List Action
  outer zipped id = set_header request_id_header id ∷ zipped_actions compress zipped actions

  status-outer :
      (zipped : Bool) (id : Bytes) → (run (outer zipped id)).status ≡ (run actions).status
  unfolding first_status
  status-outer true id =
      (run-Sends (outer true id)).status_is
      ∙ ap first_status (sym (append-nil (squeeze compress [] actions)))
      ∙ first_status-squeeze compress actions [] []
      ∙ sym (run-Sends actions).status_is
  status-outer false id = (run-Sends (outer false id)).status_is ∙ sym (run-Sends actions).status_is

  body-outer :
      (zipped : Bool) (id : Bytes)
      → (run (outer zipped id)).body ≡ (
          if zipped
          then body_for (run actions).status (compress (run actions).body)
          else (run actions).body)
  unfolding first_status written
  body-outer true id =
      let plain = run-Sends actions in
      (run-Sends (outer true id)).body_is
      ∙ ap (λ (a : List Action). body_for (first_status a) (written a))
          (sym (append-nil (squeeze compress [] actions)))
      ∙ rw (first_status-squeeze compress actions [] [], written-squeeze compress actions [] [])
          (ap (body_for (first_status actions)) (append-nil (compress (written actions)))
            ∙ body_for-compress compress (first_status actions) (written actions)
            ∙ rw (plain.status_is, plain.body_is))
  body-outer false id = (run-Sends (outer false id)).body_is ∙ sym (run-Sends actions).body_is

  id-outer :
      (zipped : Bool) (id : Bytes)
      → Leaves request_id_header actions
      → (run (outer zipped id)).headers request_id_header ≡ id ∷ []
  unfolding sent_values same
  id-outer true id h =
      (run-Sends (outer true id)).headers_are request_id_header
      ∙ sent_values-Leaves request_id_header (id ∷ []) (squeeze compress [] actions)
          (Leaves-squeeze compress request_id_header actions [] h)
  id-outer false id h =
      (run-Sends (outer false id)).headers_are request_id_header
      ∙ sent_values-Leaves request_id_header (id ∷ []) actions h

  encoding-outer :
      (zipped : Bool) (id : Bytes)
      → Leaves (codes "Content-Encoding") actions
      → (run (outer zipped id)).headers (codes "Content-Encoding")
        ≡ (if zipped then codes "gzip" ∷ [] else [])
  unfolding sent_values same
  encoding-outer true id h =
      (run-Sends (outer true id)).headers_are (codes "Content-Encoding")
      ∙ sent_values-Leaves (codes "Content-Encoding") (codes "gzip" ∷ [])
          (squeeze compress [] actions)
          (Leaves-squeeze compress (codes "Content-Encoding") actions [] h)
  encoding-outer false id h =
      (run-Sends (outer false id)).headers_are (codes "Content-Encoding")
      ∙ sent_values-Leaves (codes "Content-Encoding") [] actions h

  recorded-zipped_actions :
      (zipped : Bool) (id : Bytes)
      → IsProper false actions
      → recorded 200 (zipped_actions compress zipped actions) ≡ (run (outer zipped id)).status
  unfolding recorded first_status
  recorded-zipped_actions true id h =
      recorded-first_status (squeeze compress [] actions)
        (IsProper-squeeze compress false actions [] h)
      ∙ sym (run-Sends (outer true id)).status_is
  recorded-zipped_actions false id h =
      recorded-first_status actions h ∙ sym (run-Sends (outer false id)).status_is

module _ {ℓ} {S : Type ℓ} (encode : ApiError → Bytes) (compress : Bytes → Bytes) (mux : Handler S)
    (r : Request) (s : S) where
  abbrev out : Run S
  out = handled encode compress true mux r s

  -- When the handler returns, sends a status at most once and leaves the two headers alone that the
  -- middlewares set, the client gets its status and its body, compressed if the client accepts that,
  -- with the request's identifier; and the log gets one line, with that status and identifier.
  pub with_middlewares-Answered :
      out.ending ≡ returned
      → IsProper false out.actions
      → Leaves request_id_header out.actions
      → Leaves (codes "Content-Encoding") out.actions
      → Answered compress r out (with_middlewares encode compress true mux r s)
  with_middlewares-Answered ended proper no_id no_encoding =
      let zipped = accepts_gzip r in
      let id = generate_request_id r.random in
      rw (with_middlewares_lem encode compress true mux r s) (
        rw ended (record {
          state_is = refl;
          ending_is = refl;
          status_is = status-outer compress out.actions zipped id;
          body_is = body-outer compress out.actions zipped id;
          encoding_is = encoding-outer compress out.actions zipped id no_encoding;
          id_is = id-outer compress out.actions zipped id no_id;
          log_is = rw (recorded-zipped_actions compress out.actions zipped id proper);
        }))
