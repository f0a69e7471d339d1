-- ===== src/Adapter/Caching.antt =====
-- Conditional requests. (internal/server/handlers/adapters.go)
use leasewebassignment.Base.{
  Bool, false, not, ◌&&◌, some, ◌≡◌, refl, sym, ◌∙◌, ◌↔◌, arith, inl, inr, if◌then◌else◌,
  Bool-cases, ok,
}
use leasewebassignment.Text.{Bytes, same, is_empty}
use leasewebassignment.Text.Laws.{same_iff, same_self}
use leasewebassignment.Handlers.Page.{ServersResponse}
use leasewebassignment.Adapter.{Encoding, empty, json, compute_etag, write_json}

and-false : (b : Bool) → (b && false) ≡ false
and-false b = ground arith

module _ {ℓ} {F : Type ℓ} (enc : Encoding F) where
  -- A page that can be encoded is answered with 304 and no body exactly when the request names the
  -- ETag of its encoding, and otherwise with its encoding; the ETag is sent in both cases.
  pub write_json_iff :
      (body : ServersResponse F) (if_none_match encoded : Bytes)
      → enc.marshal body ≡ ok encoded
      → (((write_json enc 200 body if_none_match).status ≡ 304)
          ↔ (if_none_match ≡ compute_etag enc encoded))
        × ((write_json enc 200 body if_none_match).etag ≡ some (compute_etag enc encoded))
        × ((write_json enc 200 body if_none_match).body
            ≡ (if same if_none_match (compute_etag enc encoded) then empty else json encoded))
  unfolding write_json compute_etag
  write_json_iff body if_none_match encoded h =
      let tag = compute_etag enc encoded in
      rw (h, write_json)
        (elim (Bool-cases (same if_none_match tag)) [
          | inl equal ↦
              let text = (same_iff if_none_match tag).0 equal in
              rw text (rw (same_self tag) ((λ _. refl, λ _. refl), refl, refl))
          | inr other ↦ rw (other) (
              rw (and-false (not (is_empty if_none_match))) (
                (
                  λ bad. absurd (omega arith),
                  λ equal. absurd (cc (sym other ∙ (same_iff if_none_match tag).1 equal)),
                ),
                refl,
                refl,
              ))
        ])
