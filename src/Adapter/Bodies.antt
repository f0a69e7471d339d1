-- ===== src/Adapter/Bodies.antt =====
-- What a response of the adapter writes. (internal/server/handlers/adapters.go)
use mathlib.Core.List.{append-nil}
use leasewebassignment.Base.{
  ℕ, List, [], ◌++◌, Option, none, some, ◌≡◌, refl, ◌∙◌, inl, inr, Bool-cases, if◌then◌else◌,
}
use leasewebassignment.Text.{Bytes, codes, same}
use leasewebassignment.Errors.{ApiError}
use leasewebassignment.Wire.{Action}
use leasewebassignment.Wire.Laws.{written}
use leasewebassignment.Middleware.{error_actions}
use leasewebassignment.Adapter.{
  Body, empty, error_body, json, encode_failure, redirect_to, Response, redirect_actions,
  body_actions, etag_headers, optional_header, response_actions,
}

-- What a body is as text.
abbrev pub body_text : (ApiError → Bytes) → Bytes → Body → Bytes
body_text encode method empty = []
body_text encode method (error_body a) = encode a
body_text encode method (json bytes) = bytes
body_text encode method encode_failure =
    codes "{\"error\":{\"code\":\"internal_error\",\"message\":\"failed to encode response\"}}\n"
body_text encode method (redirect_to path) =
    if same method (codes "GET")
    then codes "<a href=\"" ++ path ++ codes "\">" ++ codes "Found" ++ codes "</a>.\n\n"
    else []

written-redirect_actions :
    (method : Bytes) (status : ℕ) (path : Bytes)
    → written (redirect_actions method status (codes "Found") path) ≡ (
        if same method (codes "GET")
        then codes "<a href=\"" ++ path ++ codes "\">" ++ codes "Found" ++ codes "</a>.\n\n"
        else [])
unfolding written
written-redirect_actions method status path = elim (Bool-cases (same method (codes "GET"))) [
  | inl get ↦ rw get (append-nil _)
  | inr other ↦ elim (Bool-cases (same method (codes "HEAD"))) [
    | inl head ↦ rw (other, head)
    | inr post ↦ rw (other, post)
  ]
]

written-body_actions :
    (encode : ApiError → Bytes) (method : Bytes) (status : ℕ) (body : Body)
    → written (body_actions encode method status body) ≡ body_text encode method body
unfolding written error_actions
written-body_actions encode method status empty = refl
written-body_actions encode method status (error_body a) = append-nil (encode a)
written-body_actions encode method status (json bytes) = append-nil bytes
written-body_actions encode method status encode_failure = refl
written-body_actions encode method status (redirect_to path) =
    written-redirect_actions method status path

written-headers :
    (allow etag : Option Bytes) (rest : List Action)
    → written (optional_header (codes "Allow") allow ++ (etag_headers etag ++ rest)) ≡ written rest
unfolding written
written-headers none none rest = refl
written-headers none (some etag) rest = refl
written-headers (some allow) none rest = refl
written-headers (some allow) (some etag) rest = refl

pub written-response_actions :
    (encode : ApiError → Bytes) (method : Bytes) (response : Response)
    → written (response_actions encode method response) ≡ body_text encode method response.body
unfolding response_actions
written-response_actions encode method response =
    written-headers response.allow response.etag _
    ∙ written-body_actions encode method response.status response.body
