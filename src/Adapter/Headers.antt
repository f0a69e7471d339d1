-- ===== src/Adapter/Headers.antt =====
-- What a response of the adapter does to the headers, and how often it sends a status.
use leasewebassignment.Base.{
  ℕ, false, List, ◌++◌, Option, none, some, ◌≡◌, refl, ◌∙◌, inl, inr, Bool-cases,
}
use leasewebassignment.Text.{Bytes, codes, same}
use leasewebassignment.Errors.{ApiError}
use leasewebassignment.Wire.{Action}
use leasewebassignment.Wire.Laws.{first_status}
use leasewebassignment.Middleware.{error_actions, request_id_header}
use leasewebassignment.Middleware.Replies.{IsProper, Leaves}
use leasewebassignment.Adapter.{
  Body, empty, error_body, json, encode_failure, redirect_to, Response, redirect_actions,
  body_actions, etag_headers, optional_header, response_actions,
}

-- A header that no response sets.
pub record Foreign (key : Bytes) : Type 0 where
  pub not_allow : same key (codes "Allow") ≡ false
  pub not_etag : same key (codes "ETag") ≡ false
  pub not_cache_control : same key (codes "Cache-Control") ≡ false
  pub not_content_type : same key (codes "Content-Type") ≡ false
  pub not_options : same key (codes "X-Content-Type-Options") ≡ false
  pub not_location : same key (codes "Location") ≡ false

module _ (key : Bytes) (foreign : Foreign key) where
  Leaves-redirect_actions :
      (method : Bytes) (status : ℕ) (text path : Bytes)
      → Leaves key (redirect_actions method status text path)
  Leaves-redirect_actions method status text path = elim (Bool-cases (same method (codes "GET"))) [
    | inl get ↦ rw get (foreign.not_location, (foreign.not_content_type, tt))
    | inr other ↦ elim (Bool-cases (same method (codes "HEAD"))) [
      | inl head ↦ rw (other, head) (foreign.not_location, (foreign.not_content_type, tt))
      | inr post ↦ rw (other, post) (foreign.not_location, tt)
    ]
  ]

  Leaves-body_actions :
      (encode : ApiError → Bytes) (method : Bytes) (status : ℕ) (body : Body)
      → Leaves key (body_actions encode method status body)
  unfolding error_actions
  Leaves-body_actions encode method status empty = tt
  Leaves-body_actions encode method status (error_body a) = (foreign.not_content_type, tt)
  Leaves-body_actions encode method status (json bytes) = (foreign.not_content_type, tt)
  Leaves-body_actions encode method status encode_failure =
      (foreign.not_content_type, (foreign.not_options, tt))
  Leaves-body_actions encode method status (redirect_to path) =
      Leaves-redirect_actions method status (codes "Found") path

  Leaves-etag_headers :
      (etag : Option Bytes) (rest : List Action)
      → Leaves key rest
      → Leaves key (etag_headers etag ++ rest)
  Leaves-etag_headers none rest h = h
  Leaves-etag_headers (some etag) rest h = (foreign.not_etag, (foreign.not_cache_control, h))

  Leaves-optional_header :
      (allow : Option Bytes) (rest : List Action)
      → Leaves key rest
      → Leaves key (optional_header (codes "Allow") allow ++ rest)
  Leaves-optional_header none rest h = h
  Leaves-optional_header (some allow) rest h = (foreign.not_allow, h)

  pub Leaves-response_actions :
      (encode : ApiError → Bytes) (method : Bytes) (response : Response)
      → Leaves key (response_actions encode method response)
  unfolding response_actions
  Leaves-response_actions encode method response = Leaves-optional_header response.allow _ (
      Leaves-etag_headers response.etag _
        (Leaves-body_actions encode method response.status response.body))

IsProper-redirect_actions :
    (method : Bytes) (status : ℕ) (text path : Bytes)
    → IsProper false (redirect_actions method status text path)
IsProper-redirect_actions method status text path = elim (Bool-cases (same method (codes "GET"))) [
  | inl get ↦ rw get (refl, tt)
  | inr other ↦ elim (Bool-cases (same method (codes "HEAD"))) [
    | inl head ↦ rw (other, head) (refl, tt)
    | inr post ↦ rw (other, post) (refl, tt)
  ]
]

IsProper-body_actions :
    (encode : ApiError → Bytes) (method : Bytes) (status : ℕ) (body : Body)
    → IsProper false (body_actions encode method status body)
unfolding error_actions
IsProper-body_actions encode method status empty = (refl, tt)
IsProper-body_actions encode method status (error_body a) = (refl, tt)
IsProper-body_actions encode method status (json bytes) = (refl, tt)
IsProper-body_actions encode method status encode_failure = (refl, tt)
IsProper-body_actions encode method status (redirect_to path) =
    IsProper-redirect_actions method status (codes "Found") path

IsProper-headers :
    (allow etag : Option Bytes) (rest : List Action)
    → IsProper false rest
    → IsProper false (optional_header (codes "Allow") allow ++ (etag_headers etag ++ rest))
IsProper-headers none none rest h = h
IsProper-headers none (some etag) rest h = h
IsProper-headers (some allow) none rest h = h
IsProper-headers (some allow) (some etag) rest h = h

pub IsProper-response_actions :
    (encode : ApiError → Bytes) (method : Bytes) (response : Response)
    → IsProper false (response_actions encode method response)
unfolding response_actions
IsProper-response_actions encode method response =
    IsProper-headers response.allow response.etag _
      (IsProper-body_actions encode method response.status response.body)

pub id-Foreign : Foreign request_id_header
unfolding same
id-Foreign = record {
  not_allow = refl;
  not_etag = refl;
  not_cache_control = refl;
  not_content_type = refl;
  not_options = refl;
  not_location = refl;
}

pub encoding-Foreign : Foreign (codes "Content-Encoding")
unfolding same
encoding-Foreign = record {
  not_allow = refl;
  not_etag = refl;
  not_cache_control = refl;
  not_content_type = refl;
  not_options = refl;
  not_location = refl;
}

first_status-redirect_actions :
    (method : Bytes) (status : ℕ) (text path : Bytes)
    → first_status (redirect_actions method status text path) ≡ status
unfolding first_status
first_status-redirect_actions method status text path =
    elim (Bool-cases (same method (codes "GET"))) [
      | inl get ↦ rw get
      | inr other ↦ elim (Bool-cases (same method (codes "HEAD"))) [
        | inl head ↦ rw (other, head)
        | inr post ↦ rw (other, post)
      ]
    ]

first_status-body_actions :
    (encode : ApiError → Bytes) (method : Bytes) (status : ℕ) (body : Body)
    → first_status (body_actions encode method status body) ≡ status
unfolding first_status error_actions
first_status-body_actions encode method status empty = refl
first_status-body_actions encode method status (error_body a) = refl
first_status-body_actions encode method status (json bytes) = refl
first_status-body_actions encode method status encode_failure = refl
first_status-body_actions encode method status (redirect_to path) =
    first_status-redirect_actions method status (codes "Found") path

first_status-headers :
    (allow etag : Option Bytes) (rest : List Action)
    → first_status (optional_header (codes "Allow") allow ++ (etag_headers etag ++ rest))
      ≡ first_status rest
unfolding first_status
first_status-headers none none rest = refl
first_status-headers none (some etag) rest = refl
first_status-headers (some allow) none rest = refl
first_status-headers (some allow) (some etag) rest = refl

pub first_status-response_actions :
    (encode : ApiError → Bytes) (method : Bytes) (response : Response)
    → first_status (response_actions encode method response) ≡ response.status
unfolding response_actions
first_status-response_actions encode method response =
    first_status-headers response.allow response.etag _
    ∙ first_status-body_actions encode method response.status response.body
