-- ===== src/Middleware/Stack.antt =====
-- The middlewares of a chain one inside the other, and all of them as one function.
use leasewebassignment.Base.{
  Bool, true, false, List, [], ◌∷◌, ◌++◌, reverse, some, ◌≡◌, refl, ap, ◌∙◌, if◌then◌else◌, inl,
  inr, Bool-cases,
}
use mathlib.Core.List.{reverse-cons}
use leasewebassignment.Text.{Bytes, codes}
use leasewebassignment.Errors.{ApiError}
use leasewebassignment.Wire.{Action, set_header, add_header}
use leasewebassignment.Middleware.{
  Request, Handler, Run, generate_request_id, request_id_header, recorded, squeeze, accepts_gzip,
  gzip, log_request, after_panic, LogLine, with_middlewares, chain, wrap_all,
}

-- The middlewares of a chain, the outermost first.
pub outermost_first {ℓ} : {H : Type ℓ} → H → List (H → H) → H
outermost_first base [] = base
outermost_first base (mw ∷ mws) = mw (outermost_first base mws)

module _ {ℓ} {H : Type ℓ} where
  wrap_all-append :
      (h : H) (mws : List (H → H)) (mw : H → H)
      → wrap_all h (mws ++ (mw ∷ [])) ≡ mw (wrap_all h mws)
  wrap_all-append h [] mw = refl
  wrap_all-append h (m ∷ mws) mw = wrap_all-append (m h) mws mw

  -- A chain applies its middlewares so that the first of the list is the outermost, and the base is
  -- innermost.
  pub chain_lem : (base : H) (mws : List (H → H)) → chain base mws ≡ outermost_first base mws
  unfolding chain outermost_first
  chain_lem base [] = refl
  chain_lem base (mw ∷ mws) =
      ap (wrap_all base) (reverse-cons mw mws)
      ∙ wrap_all-append base (reverse mws) mw
      ∙ ap mw (chain_lem base mws)

-- The actions of a handler as they leave the innermost middleware.
abbrev pub zipped_actions : (Bytes → Bytes) → Bool → List Action → List Action
zipped_actions compress zipped actions =
    if zipped
    then set_header (codes "Content-Encoding") (codes "gzip")
      ∷ add_header (codes "Vary") (codes "Accept-Encoding")
      ∷ squeeze compress [] actions
    else actions

module _ {ℓ} {S : Type ℓ} (compress : Bytes → Bytes) (mux : Handler S) where
  gzip_lem :
      (r : Request) (s : S)
      → gzip compress mux r s
        ≡ record (mux r s) { actions = zipped_actions compress (accepts_gzip r) (mux r s).actions }
  unfolding gzip
  gzip_lem r s = elim (Bool-cases (accepts_gzip r)) [
    | inl zipped ↦ rw (zipped, gzip)
    | inr plain ↦ rw (plain, gzip)
  ]

module _ {ℓ} {S : Type ℓ} (encode : ApiError → Bytes) (compress : Bytes → Bytes) (logger : Bool)
    (mux : Handler S) (r : Request) (s : S) where
  -- the request as the handler gets it
  abbrev pub identified : Request
  identified = record r { context_id = some (generate_request_id r.random) }

  -- what the handler does
  abbrev pub handled : Run S
  handled = mux identified s

  abbrev pub sent_actions : List Action
  sent_actions = zipped_actions compress (accepts_gzip r) handled.actions

  abbrev pub logged_lines : Bool → List LogLine
  logged_lines true =
      handled.log ++ log_request identified (recorded 200 sent_actions) handled.ending
  logged_lines false = handled.log

  -- what leaves the middleware that gives the identifier
  abbrev pub inside : Run S
  inside = record {
    state = handled.state;
    actions = set_header request_id_header (generate_request_id r.random) ∷ sent_actions;
    log = logged_lines logger;
    ending = handled.ending;
  }

-- The chain as one function: a panic is handled in the context of the outer request.
pub with_middlewares_lem {ℓ} :
    {S : Type ℓ} (encode : ApiError → Bytes) (compress : Bytes → Bytes) (logger : Bool)
    (mux : Handler S) (r : Request) (s : S)
    → with_middlewares encode compress logger mux r s
      ≡ after_panic encode logger r
          (inside encode compress logger mux r s)
          (handled encode compress logger mux r s).ending
unfolding with_middlewares
with_middlewares_lem encode compress true mux r s =
    rw (gzip_lem compress mux (record r { context_id = some (generate_request_id r.random) }) s)
with_middlewares_lem encode compress false mux r s =
    rw (gzip_lem compress mux (record r { context_id = some (generate_request_id r.random) }) s)
