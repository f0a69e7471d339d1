-- ===== src/Handlers/Limits.antt =====
-- What a query says of its page, and the values that are allowed if the configuration names none.
-- (internal/server/handlers/filter.go, internal/server/handlers/handlers.go)
use leasewebassignment.Base.{
  Bool, false, ◌||◌, List, [], ◌∷◌, ◌++◌, ◌≡◌, refl, inl, inr, arith, if◌then◌else◌, ok, err,
  Result-cases, Bool-cases, ap₂,
}
use leasewebassignment.Base.Int.{ℤ, pos, leb_ℤ}
use leasewebassignment.Text.{Bytes, codes, is_empty}
use leasewebassignment.Text.Case.{Unicode}
use leasewebassignment.Text.Decimal.{atoi}
use leasewebassignment.Handlers.{Builder, get, with_defaults}
use leasewebassignment.Handlers.Request.{read_limit, read_offset, with_pagination}
use leasewebassignment.Handlers.Problems.{plus}

-- A list, or another in its place if it is empty.
abbrev pub or_else : List Bytes → List Bytes → List Bytes
or_else [] instead = instead
or_else (v ∷ vs) instead = v ∷ vs

abbrev pub documented_ram : List Bytes
documented_ram =
    codes "2GB"
    ∷ codes "4GB"
    ∷ codes "8GB"
    ∷ codes "12GB"
    ∷ codes "16GB"
    ∷ codes "24GB"
    ∷ codes "32GB"
    ∷ codes "48GB"
    ∷ codes "64GB"
    ∷ codes "96GB"
    ∷ []

abbrev pub documented_disk_types : List Bytes
documented_disk_types = codes "SAS" ∷ codes "SATA" ∷ codes "SSD" ∷ []

pub with_defaults_lem :
    (ram disk_types : List Bytes)
    → with_defaults ram disk_types
      ≡ (or_else ram documented_ram, or_else disk_types documented_disk_types)
unfolding with_defaults
with_defaults_lem [] [] = refl
with_defaults_lem [] (d ∷ ds) = refl
with_defaults_lem (r ∷ rs) [] = refl
with_defaults_lem (r ∷ rs) (d ∷ ds) = refl

-- An integer that is not below the least one.
abbrev pub is_from : ℤ → Bytes → Bool
is_from least raw = elim (atoi raw) [ err _ ↦ false | ok z ↦ leb_ℤ least z ]

module _ ⦃U : Unicode⦄ where
  -- A limit is a positive integer, or is not given.
  abbrev pub limit_problems : Bytes → List Bytes
  limit_problems raw =
      if is_empty raw || is_from (pos 1) raw
      then []
      else (codes "limit: " ++ U.quote raw ++ codes " must be a positive integer") ∷ []

  abbrev pub offset_problems : Bytes → List Bytes
  offset_problems raw =
      if is_empty raw || is_from (pos 0) raw
      then []
      else (codes "offset: " ++ U.quote raw ++ codes " must be a non-negative integer") ∷ []

  -- The limit is 50 if none is given, and 200 if a larger one is.
  abbrev pub limit_of : Bytes → ℤ
  limit_of raw = if is_empty raw then pos 50 else elim (atoi raw) [
    | err _ ↦ pos 50
    | ok z ↦ if leb_ℤ (pos 1) z then (if leb_ℤ z (pos 200) then z else pos 200) else pos 50
  ]

  abbrev pub offset_of : Bytes → ℤ
  offset_of raw =
      if is_empty raw
      then pos 0
      else elim (atoi raw) [ err _ ↦ pos 0 | ok z ↦ if leb_ℤ (pos 0) z then z else pos 0 ]

  pub read_limit_lem : (raw : Bytes) → read_limit raw ≡ (limit_of raw, limit_problems raw)
  unfolding read_limit
  read_limit_lem raw = elim (Bool-cases (is_empty raw)) [
    | inl nil ↦ rw nil refl
    | inr given ↦ elim (Result-cases (atoi raw)) [
      | inr (why, failed) ↦ rw (given, failed, is_from) refl
      | inl (z, parsed) ↦ rw (given, parsed) (ground arith)
    ]
  ]

  pub read_offset_lem : (raw : Bytes) → read_offset raw ≡ (offset_of raw, offset_problems raw)
  unfolding read_offset
  read_offset_lem raw = elim (Bool-cases (is_empty raw)) [
    | inl nil ↦ rw nil refl
    | inr given ↦ elim (Result-cases (atoi raw)) [
      | inr (why, failed) ↦ rw (given, failed, is_from) refl
      | inl (z, parsed) ↦ rw (given, parsed) (ground arith)
    ]
  ]

  pub with_pagination_lem :
      (b : Builder)
      → with_pagination b
        ≡ plus b
            (record b.request {
              limit = limit_of (get b.values (codes "limit"));
              offset = offset_of (get b.values (codes "offset"));
            })
            (limit_problems (get b.values (codes "limit"))
              ++ offset_problems (get b.values (codes "offset")))
  unfolding with_pagination
  with_pagination_lem b =
      ap₂
        (λ (l o : ℤ × List Bytes).
          plus b (record b.request { limit = l.0; offset = o.0 }) (l.1 ++ o.1))
        (read_limit_lem (get b.values (codes "limit")))
        (read_offset_lem (get b.values (codes "offset")))
