-- ===== src/Service/Header.antt =====
-- The header row, and a table as a whole. (internal/service/parser.go)
use leasewebassignment.Base.{
  false, List, [], ◌∷◌, ◌++◌, none, ◌≡◌, refl, ap, ap₂, All, ◌∙◌, ◌↔◌, inl, inr, Bool-cases,
  Option-cases, ok,
}
use leasewebassignment.Text.{Bytes, same, is_empty}
use leasewebassignment.Text.Laws.{same_iff, same_self}
use leasewebassignment.Text.Case.{Unicode}
use leasewebassignment.Model.{Server, Floats}
use leasewebassignment.Service.{
  check_header, expected_header, parse_rows, parse_table, head_or_empty, tail_or_empty,
}
use leasewebassignment.Service.Rows.{Rows, parse_rows_iff}

module _ ⦃U : Unicode⦄ where
  check_header-append : (wants extra : List Bytes) → check_header wants (wants ++ extra) ≡ none
  unfolding check_header
  check_header-append [] extra = refl
  check_header-append (want ∷ wants) extra = rw (same_self want) (check_header-append wants extra)

  check_header-step :
      (want : Bytes) (wants headers : List Bytes)
      → check_header (want ∷ wants) headers ≡ none
      → (head_or_empty headers ≡ want) × (check_header wants (tail_or_empty headers) ≡ none)
  unfolding check_header
  check_header-step want wants headers e = elim (Bool-cases (same (head_or_empty headers) want)) [
    | inl equal ↦ ((same_iff _ _).0 equal, rw (equal, check_header) at e)
    | inr other ↦ absurd (cc (rw (other, check_header) at e))
  ]

  check_header-eq-none :
      (wants headers : List Bytes)
      → All (λ want. is_empty want ≡ false) wants
      → check_header wants headers ≡ none
      → (extra : List Bytes) × (headers ≡ wants ++ extra)
  check_header-eq-none [] headers ne e = (headers, refl)
  check_header-eq-none ([] ∷ wants) headers (ne, _) e = cc
  check_header-eq-none ((c ∷ want) ∷ wants) [] ne e =
      absurd (cc (check_header-step (c ∷ want) wants [] e).0)
  check_header-eq-none ((c ∷ want) ∷ wants) (h ∷ headers) (_, ne) e =
      let (equal, later) = check_header-step (c ∷ want) wants (h ∷ headers) e in
      let (extra, at_extra) = check_header-eq-none wants headers ne later in
      (extra, ap₂ ◌∷◌ equal at_extra)

  -- The header row is accepted exactly when its first five columns are Model, RAM, HDD, Location and
  -- Price, whatever follows them.
  pub check_header_iff :
      (headers : List Bytes)
      → (check_header expected_header headers ≡ none)
        ↔ ((extra : List Bytes) × (headers ≡ expected_header ++ extra))
  check_header_iff headers = (
    check_header-eq-none expected_header headers (refl, (refl, (refl, (refl, (refl, tt))))),
    λ (extra, e). rw e (check_header-append expected_header extra),
  )

  parse_table-header {ℓ} :
      {F : Type ℓ} ⦃fl : Floats F⦄ (extra : List Bytes) (rows : List (List Bytes))
      → parse_table {F = F} ((expected_header ++ extra) ∷ rows) ≡ parse_rows 0 rows
  unfolding parse_table
  parse_table-header extra rows = rw (check_header-append expected_header extra, parse_table)

  -- A table is accepted exactly when it has a header row with the expected columns and each row
  -- behind it holds a server; the servers are then those of the rows, in order.
  pub parse_table_iff {ℓ} :
      {F : Type ℓ} ⦃fl : Floats F⦄ (table : List (List Bytes)) (ss : List (Server F))
      → (parse_table table ≡ ok ss) ↔ (
          (extra : List Bytes) × (rows : List (List Bytes)) × (table
            ≡ (expected_header ++ extra) ∷ rows)
          × Rows rows ss)
  unfolding parse_table
  parse_table_iff [] ss = (λ e. absurd (cc e), λ (extra, rows, e, _). absurd (cc e))
  parse_table_iff (headers ∷ rows) ss = (
    λ e. elim (Option-cases (check_header expected_header headers)) [
      | inr (x, bad) ↦ absurd (cc (rw (bad, parse_table) at e))
      | inl good ↦
          let (extra, at_extra) = (check_header_iff headers).0 good in
          (
            extra,
            rows,
            ap (λ h. h ∷ rows) at_extra,
            (parse_rows_iff 0 rows ss).0 (rw (good, parse_table) at e),
          )
    ],
    λ (extra, rows', e, held).
        ap parse_table e ∙ parse_table-header extra rows' ∙ (parse_rows_iff 0 rows' ss).1 held,
  )
