-- ===== src/Server/Listing.antt =====
-- `GET /v1/servers` from the query to the page. (internal/server/handlers/servers.go)
use leasewebassignment.Base.{
  ℕ, ◌+◌, ◌≤◌, ◌<◌, Bool, true, false, List, [], ◌∷◌, keep, length, some, ◌≡◌, refl, ap, subst, ◌∙◌,
  ◌↔◌, ◌⊎◌, inl, inr, arith, Bool-cases, ok, err,
}
use leasewebassignment.Base.Int.{ℤ, pos, negsuc, ◌≤ℤ◌, int_half}
use leasewebassignment.Text.{codes, is_empty, join}
use leasewebassignment.Text.Case.{Unicode}
use leasewebassignment.Errors.{api_error, invalid_input}
use leasewebassignment.Model.{Server}
use leasewebassignment.Store.{MemoryRepository}
use leasewebassignment.Store.Files.{FileSystem}
use leasewebassignment.Store.Matching.{Matches}
use leasewebassignment.Store.Catalog.{catalog, IsIndexed, list_servers-catalog}
use leasewebassignment.Service.{get_servers}
use leasewebassignment.Handlers.{Values, new_builder, max_limit}
use leasewebassignment.Handlers.Request.{to_filter, build, read_query}
use leasewebassignment.Handlers.Query.{
  problems, request_of, criteria, to_filter-request_of, build-read_query, build_bounds,
}
use leasewebassignment.Handlers.Page.{
  ServersResponse, Allowed, Outcome, returns, outcome_of, handle_get_servers, map_servers_response,
}
use leasewebassignment.Handlers.Paging.{responses, map_servers_response_lem}

length-keep {ℓ} : {A : Type ℓ} (test : A → Bool) (xs : List A) → length (keep test xs) ≤ length xs
length-keep test [] = omega arith
length-keep test (x ∷ xs) = ground (arith, length-keep test xs)

natural : (z : ℤ) → pos 0 ≤ℤ z → (n : ℕ) × (z ≡ pos n)
natural (pos n) h = (n, refl)
natural (negsuc n) h = absurd (omega arith)

outcome-page {ℓ} :
    {F : Type ℓ} (servers : List (Server F)) {l o : ℤ} {limit offset : ℕ}
    → l ≡ pos limit
    → o ≡ pos offset
    → length servers + limit < int_half
    → outcome_of (map_servers_response servers l o)
      ≡ returns (
          ok (record {
            page = responses limit offset servers;
            meta = record { total = pos (length servers); limit = pos limit; offset = pos offset };
          }))
outcome-page servers {limit} {offset} limit_is offset_is room =
    rw (limit_is, offset_is) (ap outcome_of (map_servers_response_lem servers limit offset room))

module _ {ℓ} (fs : FileSystem) {F : Type ℓ} ⦃U : Unicode⦄ where
  -- The query has no problem, and the response is the page that it asks for of the servers of the
  -- catalog that match it, in order, with the number of all of them.
  pub record Listed (allowed : Allowed) (r : MemoryRepository F) (values : Values)
      (outcome : Outcome (ServersResponse F)) : Type ℓ where
    pub accepted : is_empty (problems values allowed.ram allowed.disk_types) ≡ true
    pub test : Server F → Bool
    pub exact :
        (s : Server F)
        → (test s ≡ true) ↔ Matches s (criteria values allowed.ram allowed.disk_types)
    pub limit : ℕ
    pub offset : ℕ
    pub limit_is : (request_of values allowed.ram allowed.disk_types).limit ≡ pos limit
    pub offset_is : (request_of values allowed.ram allowed.disk_types).offset ≡ pos offset
    pub limit_bounds : (1 ≤ limit) × (limit ≤ max_limit)
    pub outcome_is :
        outcome
        ≡ returns (
            ok (record {
              page = responses limit offset (keep test (catalog r));
              meta = record {
                total = pos (length (keep test (catalog r)));
                limit = pos limit;
                offset = pos offset;
              };
            }))

  -- The query has problems, and the response is a 400 that names them all.
  pub record Rejected (allowed : Allowed) (values : Values) (outcome : Outcome (ServersResponse F))
      : Type ℓ where
    pub problematic : is_empty (problems values allowed.ram allowed.disk_types) ≡ false
    pub outcome_is :
        outcome
        ≡ returns (
            err (
              api_error (
                invalid_input
                  (codes "invalid query parameters")
                  (join (problems values allowed.ram allowed.disk_types) (codes "; ")))))

  -- With an indexed repository whose length leaves room for a page in an `int`, `GetServers` does
  -- not panic: it rejects the query with all that is wrong with it, or lists exactly the page asked
  -- for of the servers that match.
  pub handle_get_servers_lem :
      (allowed : Allowed) (r : MemoryRepository F) (files : fs.State) (values : Values)
      → IsIndexed r
      → length (catalog r) + max_limit < int_half
      → Listed allowed r values
          (handle_get_servers fs allowed (record { repo = some r; files = files }) values)
        ⊎ Rejected allowed values
            (handle_get_servers fs allowed (record { repo = some r; files = files }) values)
  unfolding handle_get_servers get_servers
  handle_get_servers_lem allowed r files values indexed room =
      let all_problems = problems values allowed.ram allowed.disk_types in
      let req = request_of values allowed.ram allowed.disk_types in
      let built = build-read_query values allowed.ram allowed.disk_types in
      elim (Bool-cases (is_empty all_problems)) [
        | inr bad ↦
            inr (record { problematic = bad; outcome_is = rw (built, handle_get_servers) (rw bad) })
        | inl good ↦
            let done : build (read_query (new_builder values allowed.ram allowed.disk_types))
                ≡ ok req =
              built ∙ rw good in
            let (least, most, from) = build_bounds values allowed.ram allowed.disk_types done in
            let (limit, limit_is) = natural req.limit (ground arith) in
            let (offset, offset_is) = natural req.offset from in
            let (test, exact, listed) = list_servers-catalog r (to_filter req) indexed in
            let paged =
              outcome-page (keep test (catalog r)) limit_is offset_is
                (ground (arith, length-keep test (catalog r))) in
            inl (record {
              accepted = good;
              test = test;
              exact = λ x.
                  subst (λ f. (test x ≡ true) ↔ Matches x f)
                    (to_filter-request_of values allowed.ram allowed.disk_types) (exact x);
              limit = limit;
              offset = offset;
              limit_is = limit_is;
              offset_is = offset_is;
              limit_bounds = ground arith;
              outcome_is = rw (done, handle_get_servers) (rw (listed, get_servers) paged);
            })
      ]
