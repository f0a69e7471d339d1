-- ===== src/Handlers/Query.antt =====
-- The query as a whole: its problems, and the request that it stands for.
-- (internal/server/handlers/filter.go)
use mathlib.Core.List.{append_assoc}
use leasewebassignment.Base.{
  Bool, true, false, not, List, [], ◌++◌, none, ◌≡◌, refl, sym, ap, ◌∙◌, inl, inr, arith,
  if◌then◌else◌, ok, err, Result-cases, Bool-cases, ok-injective,
}
use leasewebassignment.Base.Int.{pos, ◌≤ℤ◌}
use leasewebassignment.Text.{Bytes, codes, is_empty, join}
use leasewebassignment.Text.Case.{Unicode}
use leasewebassignment.Text.Decimal.{atoi}
use leasewebassignment.Errors.{Error, api_error, invalid_input}
use leasewebassignment.Handlers.{
  Builder, zero_request, Values, GetServersRequest, new_builder, get, values_of, with_model,
  with_location,
}
use leasewebassignment.Model.{ServerFilter}
use leasewebassignment.Handlers.Request.{to_filter, build, read_query}
use leasewebassignment.Handlers.Limits.{
  or_else, documented_ram, documented_disk_types, with_defaults_lem, limit_problems,
  offset_problems, limit_of, offset_of, with_pagination_lem,
}
use leasewebassignment.Handlers.Problems.{
  accepted_rams, ram_problems, disk_problems, storage_problems, storage_bound, with_ram_lem,
  with_disk_type_lem, with_storage_min_lem, with_storage_max_lem,
}

branch_ok :
    (b : Bool) (x : GetServersRequest) (e : Error) {y : GetServersRequest}
    → (if b then ok x else err e) ≡ ok y
    → x ≡ y
branch_ok true x e h = ok-injective h
branch_ok false x e h = cc

regroup {ℓ} :
    {A : Type ℓ} (a b c d e : List A) → (((a ++ b) ++ c) ++ d) ++ e ≡ a ++ (b ++ (c ++ (d ++ e)))
regroup a b c d e = simp append_assoc

not-branch {ℓ} : {A : Type ℓ} (b : Bool) (x y : A) → (if not b then x else y) ≡ (if b then y else x)
not-branch true x y = refl
not-branch false x y = refl

module _ ⦃U : Unicode⦄ (values : Values) (allowed_ram allowed_disk_types : List Bytes) where
  abbrev pub rams : List Bytes
  rams = or_else allowed_ram documented_ram

  abbrev pub disk_types : List Bytes
  disk_types = or_else allowed_disk_types documented_disk_types

  -- All that is wrong with the query, in the order of the calls.
  abbrev pub problems : List Bytes
  problems =
      ram_problems rams (values_of values (codes "ram"))
      ++ (disk_problems disk_types (get values (codes "disk_type"))
          ++ (storage_problems (codes "storage_min: ") (get values (codes "storage_min"))
              ++ (storage_problems (codes "storage_max: ") (get values (codes "storage_max"))
                  ++ (limit_problems (get values (codes "limit"))
                      ++ offset_problems (get values (codes "offset"))))))

  -- The request that the query stands for: of the RAM values those that are allowed, and for a
  -- parameter that is not given the default.
  abbrev pub request_of : GetServersRequest
  request_of = record {
    model = get values (codes "model");
    ram = accepted_rams rams (values_of values (codes "ram"));
    location = get values (codes "location");
    disk_type = get values (codes "disk_type");
    storage_min = storage_bound (get values (codes "storage_min")) none;
    storage_max = storage_bound (get values (codes "storage_max")) none;
    limit = limit_of (get values (codes "limit"));
    offset = offset_of (get values (codes "offset"));
  }

  -- What the query asks of a server.
  abbrev pub criteria : ServerFilter
  criteria = record {
    model = get values (codes "model");
    ram = accepted_rams rams (values_of values (codes "ram"));
    location = get values (codes "location");
    disk_type = get values (codes "disk_type");
    storage_min = storage_bound (get values (codes "storage_min")) none;
    storage_max = storage_bound (get values (codes "storage_max")) none;
  }

  pub to_filter-request_of : to_filter request_of ≡ criteria
  unfolding to_filter
  to_filter-request_of = refl

  -- the builder before its first parameter
  abbrev untouched : Builder
  untouched = record {
    values = values;
    request = zero_request;
    errs = [];
    allowed_ram = rams;
    allowed_disk_types = disk_types;
  }

  new_builder-untouched : new_builder values allowed_ram allowed_disk_types ≡ untouched
  unfolding new_builder
  new_builder-untouched =
      ap
        (λ (lists : List Bytes × List Bytes). record untouched {
          allowed_ram = lists.0;
          allowed_disk_types = lists.1;
        })
        (with_defaults_lem allowed_ram allowed_disk_types)

  read_query_lem : read_query untouched ≡ record untouched { request = request_of; errs = problems }
  unfolding read_query with_model with_location
  read_query_lem = rw (with_ram_lem (with_model untouched)) (
      rw with_disk_type_lem (
        rw with_storage_min_lem (
          rw with_storage_max_lem (
            rw with_pagination_lem (
              ap (λ errs. record untouched { request = request_of; errs = errs })
                (regroup (ram_problems rams (values_of values (codes "ram")))
                  (disk_problems disk_types (get values (codes "disk_type")))
                  (storage_problems (codes "storage_min: ") (get values (codes "storage_min")))
                  (storage_problems (codes "storage_max: ") (get values (codes "storage_max")))
                  (limit_problems (get values (codes "limit"))
                    ++ offset_problems (get values (codes "offset")))))))))

  -- The query is accepted exactly when nothing is wrong with it, and then gives the request that it
  -- stands for; otherwise the response is a 400 whose details are all of its problems, in order.
  pub build-read_query : build (read_query (new_builder values allowed_ram allowed_disk_types)) ≡ (
      if is_empty problems
      then ok request_of
      else err (
          api_error
            (invalid_input (codes "invalid query parameters") (join problems (codes "; ")))))
  unfolding build
  build-read_query =
      ap build (ap read_query new_builder-untouched ∙ read_query_lem)
      ∙ not-branch (is_empty problems)
          (err (
            api_error
              (invalid_input (codes "invalid query parameters") (join problems (codes "; ")))))
          (ok request_of)

module _ ⦃U : Unicode⦄ where
  read_limit_bounds : (raw : Bytes) → (pos 1 ≤ℤ limit_of raw) × (limit_of raw ≤ℤ pos 200)
  read_limit_bounds raw = elim (Bool-cases (is_empty raw)) [
    | inl nil ↦ rw nil (omega arith)
    | inr given ↦ elim (Result-cases (atoi raw)) [
      | inr (why, failed) ↦ rw (given, failed) (omega arith)
      | inl (z, parsed) ↦ rw (given, parsed) (ground arith)
    ]
  ]

  read_offset_bound : (raw : Bytes) → pos 0 ≤ℤ offset_of raw
  read_offset_bound raw = elim (Bool-cases (is_empty raw)) [
    | inl nil ↦ rw nil (omega arith)
    | inr given ↦ elim (Result-cases (atoi raw)) [
      | inr (why, failed) ↦ rw (given, failed) (omega arith)
      | inl (z, parsed) ↦ rw (given, parsed) (ground arith)
    ]
  ]

  -- A query that is accepted has a limit from 1 to 200 and an offset that is not negative, whatever
  -- the parameters say.
  pub build_bounds :
      (values : Values) (allowed_ram allowed_disk_types : List Bytes) {req : GetServersRequest}
      → build (read_query (new_builder values allowed_ram allowed_disk_types)) ≡ ok req
      → (pos 1 ≤ℤ req.limit) × (req.limit ≤ℤ pos 200) × (pos 0 ≤ℤ req.offset)
  build_bounds values allowed_ram allowed_disk_types {req} e =
      let accepted : request_of values allowed_ram allowed_disk_types ≡ req =
        branch_ok _ _ _ (sym (build-read_query values allowed_ram allowed_disk_types) ∙ e) in
      let (least, most) = read_limit_bounds (get values (codes "limit")) in
      rw (← accepted) (least, most, read_offset_bound (get values (codes "offset")))
