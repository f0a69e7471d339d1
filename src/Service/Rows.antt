-- ===== src/Service/Rows.antt =====
-- The rows behind the header: what each server is read from, and which row an error names.
-- (internal/service/parser.go)
use leasewebassignment.Base.{
  ℕ, ◌+◌, List, [], ◌∷◌, ◌++◌, ◌≡◌, refl, sym, ap, ◌∙◌, ◌↔◌, inl, inr, arith, ok, err, Result-cases,
  >>=-eq-ok, length, ok-injective, err-injective,
}
use native.Mathlib.Nat.{add-zero}
use leasewebassignment.Text.{Bytes, codes}
use leasewebassignment.Text.Space.{trim_space}
use leasewebassignment.Errors.{Error, csv_parse_error}
use leasewebassignment.Model.{Server, Floats, parse_price}
use leasewebassignment.Service.{invalid_upload, parse_row, parse_rows}

module _ {ℓ} {F : Type ℓ} ⦃fl : Floats F⦄ where
  -- A row holds a server: its first four columns are the server's texts but for outer white space,
  -- the fifth is its price, and further columns do not matter.
  pub record IsRow (row : List Bytes) (s : Server F) : Type ℓ where
    pub model_text : Bytes
    pub ram_text : Bytes
    pub hdd_text : Bytes
    pub location_text : Bytes
    pub price_text : Bytes
    pub extra : List Bytes
    pub row_is : row ≡ model_text ∷ ram_text ∷ hdd_text ∷ location_text ∷ price_text ∷ extra
    pub model_is : s.model ≡ trim_space model_text
    pub ram_is : s.ram ≡ trim_space ram_text
    pub hdd_is : s.hdd ≡ trim_space hdd_text
    pub location_is : s.location ≡ trim_space location_text
    pub price_is : parse_price price_text ≡ ok s.price

  -- The rows hold the servers, one each, in order.
  pub data Rows : List (List Bytes) → List (Server F) → Type ℓ where
    no_rows : Rows [] []
    one_more :
        {row : List Bytes} {s : Server F} {rows : List (List Bytes)} {ss : List (Server F)}
        → IsRow row s
        → Rows rows ss
        → Rows (row ∷ rows) (s ∷ ss)

  parse_row-IsRow : (i : ℕ) (row : List Bytes) (s : Server F) → parse_row i row ≡ ok s → IsRow row s
  unfolding parse_row
  parse_row-IsRow i (m ∷ r ∷ h ∷ l ∷ p ∷ extra) s e = elim (Result-cases (parse_price {F = F} p)) [
    | inr (x, r₁) ↦ absurd (cc (rw (r₁, parse_row) at e))
    | inl (price, r₁) ↦
        let built = ok-injective (rw (r₁, parse_row) at e) in
        rw (← built) (record {
          model_text = m;
          ram_text = r;
          hdd_text = h;
          location_text = l;
          price_text = p;
          extra = extra;
          row_is = refl;
          model_is = refl;
          ram_is = refl;
          hdd_is = refl;
          location_is = refl;
          price_is = r₁;
        })
  ]
  parse_row-IsRow i _ s e = cc

  IsRow-parse_row : (i : ℕ) (row : List Bytes) (s : Server F) → IsRow row s → parse_row i row ≡ ok s
  unfolding parse_row
  IsRow-parse_row i row s h = rw h.row_is (rw h.price_is (ground arith))

  parse_rows-Rows :
      (i : ℕ) (rows : List (List Bytes)) (ss : List (Server F))
      → parse_rows i rows ≡ ok ss
      → Rows rows ss
  unfolding parse_rows
  parse_rows-Rows i [] [] e = no_rows
  parse_rows-Rows i [] (s ∷ ss) e = cc
  parse_rows-Rows i (row ∷ rows) ss e =
      let (s, here, e₁) = >>=-eq-ok (parse_row i row) _ e in
      let (parsed, later, e₂) = >>=-eq-ok (parse_rows (i + 1) rows) _ e₁ in
      let built : ss ≡ s ∷ parsed = ground arith in
      rw built (one_more (parse_row-IsRow i row s here) (parse_rows-Rows (i + 1) rows parsed later))

  Rows-parse_rows :
      (i : ℕ) {rows : List (List Bytes)} {ss : List (Server F)}
      → Rows rows ss
      → parse_rows i rows ≡ ok ss
  unfolding parse_rows
  Rows-parse_rows i no_rows = refl
  Rows-parse_rows i (one_more {row} {s} h t) =
      rw (IsRow-parse_row i row s h, Rows-parse_rows (i + 1) t)

  -- The loop over the rows succeeds exactly when every row holds a server, and returns those
  -- servers in order; one bad row refuses them all.
  pub parse_rows_iff :
      (i : ℕ) (rows : List (List Bytes)) (ss : List (Server F))
      → (parse_rows i rows ≡ ok ss) ↔ Rows rows ss
  parse_rows_iff i rows ss = (parse_rows-Rows i rows ss, Rows-parse_rows i)

-- The rows split at the first that holds no server, and the error names that row by its number.
pub record FailsAt {ℓ} (F : Type ℓ) ⦃fl : Floats F⦄ (i : ℕ) (rows : List (List Bytes)) (e : Error)
    : Type ℓ where
  pub good : List (List Bytes)
  pub parsed : List (Server F)
  pub bad : List Bytes
  pub rest : List (List Bytes)
  pub column : Bytes
  pub reason : Bytes
  pub cause : Error
  pub rows_are : rows ≡ good ++ (bad ∷ rest)
  pub before : Rows good parsed
  pub error_is : e ≡ csv_parse_error (i + length good + 2) column reason cause
  pub refused : parse_row {F = F} (i + length good) bad ≡ err e

module _ {ℓ} {F : Type ℓ} ⦃fl : Floats F⦄ where
  parse_row_error :
      (i : ℕ) (row : List Bytes) {e : Error}
      → parse_row {F = F} i row ≡ err e
      → (column : Bytes) × (reason : Bytes) × (cause : Error) × (e
          ≡ csv_parse_error (i + 2) column reason cause)
  unfolding parse_row
  parse_row_error i (m ∷ r ∷ h ∷ l ∷ p ∷ extra) {e} h₁ =
      elim (Result-cases (parse_price {F = F} p)) [
        | inl (x, r₁) ↦ absurd (cc (rw (r₁, parse_row) at h₁))
        | inr (x, r₁) ↦ (
          codes "Price",
          codes "invalid price",
          x,
          sym (err-injective (rw (r₁, parse_row) at h₁)),
        )
      ]
  parse_row_error i _ {e} h₁ = ([], codes "too few columns", invalid_upload, sym (err-injective h₁))

  FailsAt-here :
      (i : ℕ) (row : List Bytes) (rows : List (List Bytes)) {e : Error}
      → parse_row {F = F} i row ≡ err e
      → FailsAt F i (row ∷ rows) e
  FailsAt-here i row rows h =
      let (column, reason, cause, error_is) = parse_row_error i row h in
      record {
        good = [];
        parsed = [];
        bad = row;
        rest = rows;
        column = column;
        reason = reason;
        cause = cause;
        rows_are = refl;
        before = no_rows;
        error_is = rw add-zero error_is;
        refused = rw add-zero h;
      }

  FailsAt-later :
      (i : ℕ) (row : List Bytes) (s : Server F) (rows : List (List Bytes)) {e : Error}
      → parse_row i row ≡ ok s
      → FailsAt F (i + 1) rows e
      → FailsAt F i (row ∷ rows) e
  FailsAt-later i row s rows h f =
      let moved : i + 1 + length f.good ≡ i + length (row ∷ f.good) = omega arith in
      record {
        good = row ∷ f.good;
        parsed = s ∷ f.parsed;
        bad = f.bad;
        rest = f.rest;
        column = f.column;
        reason = f.reason;
        cause = f.cause;
        rows_are = ap (◌∷◌ row) f.rows_are;
        before = one_more (parse_row-IsRow i row s h) f.before;
        error_is = rw (← moved) f.error_is;
        refused = rw (← moved) f.refused;
      }

  -- When the loop over the rows fails, every row before some row holds a server, that row does not,
  -- and the error is a CSV error that names it: with `i` = 0, its number counts from 1 and counts
  -- the header.
  pub parse_rows-FailsAt :
      (i : ℕ) (rows : List (List Bytes)) {e : Error}
      → parse_rows {F = F} i rows ≡ err e
      → FailsAt F i rows e
  unfolding parse_rows
  parse_rows-FailsAt i [] h = cc
  parse_rows-FailsAt i (row ∷ rows) {e} h = elim (Result-cases (parse_row {F = F} i row)) [
    | inr (x, here) ↦
        let same : x ≡ e = err-injective (rw (here, parse_rows) at h) in
        FailsAt-here i row rows (here ∙ ap err same)
    | inl (s, here) ↦ elim (Result-cases (parse_rows {F = F} (i + 1) rows)) [
      | inl (ss, later) ↦ absurd (cc (rw (here, later, parse_rows) at h))
      | inr (x, later) ↦
          let same : x ≡ e = err-injective (rw (here, later, parse_rows) at h) in
          FailsAt-later i row s rows here (parse_rows-FailsAt (i + 1) rows (later ∙ ap err same))
    ]
  ]
