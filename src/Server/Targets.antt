-- ===== src/Server/Targets.antt =====
-- From a request to its handler: a path that is in clean form is not redirected.
-- (internal/server/routes.go)
use leasewebassignment.Base.{
  Bool, true, false, not, ◌&&◌, List, [], ◌∷◌, ◌++◌, Option, none, some, ◌≡◌, ◌≢◌, refl, sym, ap,
  ◌∙◌, arith, if◌then◌else◌, inl, inr, Bool-cases,
}
use mathlib.Core.List.{append_cancel_right}
use leasewebassignment.Text.{Bytes, codes, same, cut_prefix}
use leasewebassignment.Text.Laws.{same_iff, same_self}
use leasewebassignment.Mux.{
  Pattern, found, method_matches, path_matches, more_specific, find_from, find, clean_path,
  handler_for, unescape_segments, ends_in_slash, is_exact, better, target_of,
}
use leasewebassignment.Server.Routes.{Endpoint, register_route, routes}
use leasewebassignment.Server.Dispatch.{endpoint_for, endpoint_of, dispatch_lem}

module _ {ℓ} {H : Type ℓ} where
  -- No pattern has this path.
  NoPattern : Bytes → List (Pattern × H) → Type 0
  NoPattern path [] = Unit
  NoPattern path ((p, h) ∷ rest) = (same p.path path ≡ false) × NoPattern path rest

  is_exact-better :
      (best : Option (Pattern × H)) (p : Pattern) (h : H) (path : Bytes)
      → is_exact best path ≡ false
      → same p.path path ≡ false
      → is_exact (better best p h) path ≡ false
  is_exact-better none p h path none_yet differs = differs
  is_exact-better (some (q, k)) p h path none_yet differs = elim (Bool-cases (more_specific p q)) [
    | inl more ↦ rw more differs
    | inr less ↦ rw less none_yet
  ]

  is_exact-next :
      (b : Bool) (best : Option (Pattern × H)) (p : Pattern) (h : H) (path : Bytes)
      → is_exact best path ≡ false
      → same p.path path ≡ false
      → is_exact (if b then better best p h else best) path ≡ false
  is_exact-next true best p h path none_yet differs = is_exact-better best p h path none_yet differs
  is_exact-next false best p h path none_yet differs = none_yet

  is_exact-find_from :
      (routes : List (Pattern × H)) (best : Option (Pattern × H)) (method path : Bytes)
      → is_exact best path ≡ false
      → NoPattern path routes
      → is_exact (find_from best routes method path) path ≡ false
  unfolding find_from NoPattern
  is_exact-find_from [] best method path none_yet h = none_yet
  is_exact-find_from ((p, h) ∷ rest) best method path none_yet (differs, others) =
      is_exact-find_from rest _ method path
        (is_exact-next (path_matches p.path path && method_matches p.method method) best p h path
          none_yet differs)
        others

ends_in_slash-append : (path : Bytes) → ends_in_slash (path ++ codes "/") ≡ true
ends_in_slash-append [] = refl
ends_in_slash-append (c ∷ []) = refl
ends_in_slash-append (c ∷ d ∷ path) = ends_in_slash-append (d ∷ path)

same-slash :
    (pattern path : Bytes)
    → ends_in_slash pattern ≡ false
    → same pattern (path ++ codes "/") ≡ false
same-slash pattern path plain = elim (Bool-cases (same pattern (path ++ codes "/"))) [
  | inr e ↦ e
  | inl e ↦ absurd (
      cc (
        sym plain
        ∙ ap ends_in_slash ((same_iff pattern (path ++ codes "/")).0 e)
        ∙ ends_in_slash-append path))
]

same-tree :
    (pattern path : Bytes)
    → path ≢ pattern
    → same (pattern ++ codes "/") (path ++ codes "/") ≡ false
same-tree pattern path other = elim (Bool-cases (same (pattern ++ codes "/") (path ++ codes "/"))) [
  | inr e ↦ e
  | inl e ↦ absurd (
      other (
        sym (
          append_cancel_right pattern path (codes "/")
            ((same_iff (pattern ++ codes "/") (path ++ codes "/")).0 e))))
]

NoPattern-slash :
    (path : Bytes)
    → path ≢ []
    → path ≢ codes "/ui"
    → path ≢ codes "/docs"
    → NoPattern (path ++ codes "/") routes
unfolding NoPattern routes register_route
NoPattern-slash path full no_ui no_docs =
    let servers = same-slash (codes "/v1/servers") path refl in
    let upload = same-slash (codes "/v1/admin/upload") path refl in
    let healthz = same-slash (codes "/healthz") path refl in
    let readyz = same-slash (codes "/readyz") path refl in
    let openapi = same-slash (codes "/openapi.yaml") path refl in
    (
      servers,
      (
        servers,
        (
          upload,
          (
            upload,
            (
              healthz,
              (
                healthz,
                (
                  readyz,
                  (
                    readyz,
                    (
                      same-tree (codes "/ui") path no_ui,
                      (
                        same-tree (codes "/docs") path no_docs,
                        (openapi, (openapi, (same-tree [] path full, tt))),
                      ),
                    ),
                  ),
                ),
              ),
            ),
          ),
        ),
      ),
    )

and-false : (a b : Bool) → (a && b && false) ≡ false
and-false a b = ground arith

target_of-endpoint_of :
    (match : Option (Pattern × Endpoint)) {endpoint : Endpoint}
    → endpoint_of match ≡ some endpoint
    → target_of match ≡ found endpoint
target_of-endpoint_of none h = cc
target_of-endpoint_of (some (p, e)) h = cc

-- A request whose escaped path is in clean form, and whose path with its segments unescaped starts with
-- a slash and is neither "/ui" nor "/docs", meets the handler of the table for that path, without a
-- redirect. A slash that is escaped separates no segments.
pub handler_for_lem :
    (method path rest : Bytes)
    → clean_path path ≡ path
    → cut_prefix (unescape_segments path) (codes "/") ≡ some rest
    → unescape_segments path ≢ codes "/ui"
    → unescape_segments path ≢ codes "/docs"
    → handler_for routes method path ≡ found (endpoint_for method (unescape_segments path))
unfolding handler_for find cut_prefix
handler_for_lem method path rest clean rooted no_ui no_docs =
    let key = unescape_segments path in
    let full : key ≢ [] = λ e. absurd (cc (rw e at rooted)) in
    let off =
      is_exact-find_from routes none method (key ++ codes "/") refl
        (NoPattern-slash key full no_ui no_docs) in
    let hit =
      target_of-endpoint_of (find routes method key) (dispatch_lem method key rest rooted) in
    rw (clean, off, same_self path)
      (rw (and-false (not (is_exact (find routes method key) key)) (not (ends_in_slash key))) hit)
