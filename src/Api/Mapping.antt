-- ===== src/Api/Mapping.antt =====
-- What `MapError` makes of an error, in terms of what its chain holds. (internal/api/errors.go)
use leasewebassignment.Base.{
  ℕ, zero, suc, ◌≤◌, ◌<◌, true, false, Option, none, some, ◌≡◌, refl, sym, ap, ◌∙◌, inl, inr, arith,
  Option-cases, Bool-cases,
}
use leasewebassignment.Text.{codes}
use leasewebassignment.Errors.{
  Error, ApiError, plain, not_exist, max_bytes, wrapped, api_error, csv_parse_error, service_error,
  store_error, message, status_code, internal_error, not_found, csv_validation_error,
}
use leasewebassignment.Api.{
  as_api, as_csv, is_not_exist, as_service, as_store, depth, map_error_from, map_error,
}

-- No error of the chain is of a kind that has a response of its own.
pub record IsInternal (e : Error) : Type 0 where
  pub no_api : as_api e ≡ none
  pub no_csv : as_csv e ≡ none
  pub exists : is_not_exist e ≡ false

-- The cause under the last service or store error of a chain; the error itself, if it has none.
unfoldable pub below : Error → Option Error
below (plain s) = none
below (not_exist s) = none
below (max_bytes n) = none
below (wrapped e s) = below e
below (api_error a) = none
below (csv_parse_error row column reason e) = below e
below (service_error op e) = elim (below e) [ none ↦ some e | some c ↦ some c ]
below (store_error op e) = elim (below e) [ none ↦ some e | some c ↦ some c ]

unfoldable pub innermost : Error → Error
unfolding below
innermost e = elim (below e) [ none ↦ e | some c ↦ c ]

depth-pos : (e : Error) → 0 < depth e
unfolding depth
depth-pos (plain s) = omega arith
depth-pos (not_exist s) = omega arith
depth-pos (max_bytes n) = omega arith
depth-pos (wrapped e s) = omega arith
depth-pos (api_error a) = omega arith
depth-pos (csv_parse_error row column reason e) = omega arith
depth-pos (service_error op e) = omega arith
depth-pos (store_error op e) = omega arith

service_IsInternal :
    (e c : Error) → as_service e ≡ some c → IsInternal e → IsInternal c × (depth c < depth e)
unfolding as_service as_api as_csv is_not_exist depth
service_IsInternal (plain s) c h k = cc
service_IsInternal (not_exist s) c h k = cc
service_IsInternal (max_bytes n) c h k = cc
service_IsInternal (wrapped e s) c h k = ground (arith, service_IsInternal e c)
service_IsInternal (api_error a) c h k = cc
service_IsInternal (csv_parse_error row column reason e) c h k = absurd (cc k.no_csv)
service_IsInternal (service_error op e) c h k = ground arith
service_IsInternal (store_error op e) c h k = ground (arith, service_IsInternal e c)

store_IsInternal :
    (e c : Error) → as_store e ≡ some c → IsInternal e → IsInternal c × (depth c < depth e)
unfolding as_store as_api as_csv is_not_exist depth
store_IsInternal (plain s) c h k = cc
store_IsInternal (not_exist s) c h k = cc
store_IsInternal (max_bytes n) c h k = cc
store_IsInternal (wrapped e s) c h k = ground (arith, store_IsInternal e c)
store_IsInternal (api_error a) c h k = cc
store_IsInternal (csv_parse_error row column reason e) c h k = absurd (cc k.no_csv)
store_IsInternal (service_error op e) c h k = ground (arith, store_IsInternal e c)
store_IsInternal (store_error op e) c h k = ground arith

service_below : (e c : Error) → as_service e ≡ some c → below e ≡ some (innermost c)
unfolding as_service innermost
service_below (plain s) c h = cc
service_below (not_exist s) c h = cc
service_below (max_bytes n) c h = cc
service_below (wrapped e s) c h = service_below e c h
service_below (api_error a) c h = cc
service_below (csv_parse_error row column reason e) c h = service_below e c h
service_below (service_error op e) c h = ground arith
service_below (store_error op e) c h = rw (service_below e c h)

store_below : (e c : Error) → as_store e ≡ some c → below e ≡ some (innermost c)
unfolding as_store innermost
store_below (plain s) c h = cc
store_below (not_exist s) c h = cc
store_below (max_bytes n) c h = cc
store_below (wrapped e s) c h = store_below e c h
store_below (api_error a) c h = cc
store_below (csv_parse_error row column reason e) c h = store_below e c h
store_below (service_error op e) c h = rw (store_below e c h)
store_below (store_error op e) c h = ground arith

no_layer_below : (e : Error) → as_service e ≡ none → as_store e ≡ none → below e ≡ none
unfolding as_service as_store below
no_layer_below (wrapped e s) h k = no_layer_below e h k
no_layer_below (csv_parse_error row column reason e) h k = no_layer_below e h k
no_layer_below (service_error op e) h k = cc
no_layer_below (store_error op e) h k = cc
no_layer_below _ h k = refl

innermost-below : (e c : Error) → below e ≡ some c → innermost e ≡ c
unfolding innermost
innermost-below e c h = rw (h, innermost)

innermost-none : (e : Error) → below e ≡ none → innermost e ≡ e
unfolding innermost
innermost-none e h = rw (h, innermost)

abbrev pub internal_response : Error → ℕ × ApiError
internal_response e = (500, internal_error (codes "internal server error") (message e))

-- The response to an error, with no recursion: an API error of the chain speaks for itself; else a
-- CSV error, in its own words, is a 400; else a missing file is a 404; else it is a 500 whose
-- details are the innermost cause.
unfoldable pub response_to : Error → ℕ × ApiError
response_to e = elim (as_api e) [
  | some a ↦ (status_code a, a)
  | none ↦ elim (as_csv e) [
    | some c ↦ (400, csv_validation_error (codes "invalid csv payload") (message c))
    | none ↦ elim (is_not_exist e) [
      | true ↦ (404, not_found (codes "resource not found") (message e))
      | false ↦ internal_response (innermost e)
    ]
  ]
]

map_error_from-internal :
    (fuel : ℕ) (e : Error)
    → depth e ≤ fuel
    → IsInternal e
    → map_error_from fuel e ≡ internal_response (innermost e)
unfolding map_error_from
map_error_from-internal zero e h k = absurd (omega (arith, depth-pos e))
map_error_from-internal (suc fuel) e h k = elim (Option-cases (as_service e)) [
  | inr (c, found) ↦
      let (inner, less) = service_IsInternal e c found k in
      rw (k.no_api, map_error_from)
        (rw k.no_csv (
          rw k.exists (
            rw found (
              map_error_from-internal fuel c (omega arith) inner
              ∙ ap internal_response
                  (sym (innermost-below e (innermost c) (service_below e c found)))))))
  | inl no_service ↦ elim (Option-cases (as_store e)) [
    | inr (c, found) ↦
        let (inner, less) = store_IsInternal e c found k in
        rw (k.no_api, map_error_from)
          (rw k.no_csv (
            rw k.exists (
              rw no_service (
                rw found (
                  map_error_from-internal fuel c (omega arith) inner
                  ∙ ap internal_response
                      (sym (innermost-below e (innermost c) (store_below e c found))))))))
    | inl no_store ↦
        rw (k.no_api, map_error_from)
          (rw k.no_csv (
            rw k.exists (
              rw no_service (
                rw no_store (
                  ap internal_response
                    (sym (innermost-none e (no_layer_below e no_service no_store))))))))
  ]
]

-- With fuel for the depth of the chain, or more, the recursion of `MapError` ends, and gives the
-- response that the chain calls for.
pub map_error_from_lem :
    (fuel : ℕ) (e : Error) → depth e ≤ fuel → map_error_from fuel e ≡ response_to e
unfolding map_error_from response_to
map_error_from_lem zero e h = absurd (omega (arith, depth-pos e))
map_error_from_lem (suc fuel) e h = elim (Option-cases (as_api e)) [
  | inr (a, found) ↦ rw (found, map_error_from, response_to)
  | inl no_api ↦ elim (Option-cases (as_csv e)) [
    | inr (c, found) ↦ rw (no_api, map_error_from, response_to) (rw found)
    | inl no_csv ↦ elim (Bool-cases (is_not_exist e)) [
      | inl missing ↦ rw (no_api, map_error_from, response_to) (rw no_csv (rw missing))
      | inr exists ↦
          map_error_from-internal (suc fuel) e h
            (record { no_api = no_api; no_csv = no_csv; exists = exists })
          ∙ rw (no_api, response_to) (rw no_csv (rw exists))
    ]
  ]
]

-- `MapError` gives the response that the chain calls for.
pub map_error_lem : (e : Error) → map_error (some e) ≡ response_to e
unfolding map_error
map_error_lem e = map_error_from_lem (depth e) e (omega arith)
