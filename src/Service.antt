-- ===== src/Service.antt =====
-- Parsing an upload, storing it, and answering queries. (internal/service/parser.go,
-- internal/service/service.go)
pub mod Rows
pub mod Header
pub mod Replace
pub mod Restart
use leasewebassignment.Base.{
  ℕ, zero, suc, ◌+◌, Bool, List, [], ◌∷◌, ◌++◌, Option, none, some, if◌then◌else◌, Result, ok, err,
  ◌>>=◌, map_err,
}
use leasewebassignment.Text.{Bytes, codes, same}
use leasewebassignment.Text.Case.{Unicode}
use leasewebassignment.Text.Space.{trim_space}
use leasewebassignment.Errors.{Error, plain, wrapped, csv_parse_error, service_error}
use leasewebassignment.Model.{Server, ServerFilter, Floats, parse_price}
use leasewebassignment.Store.{MemoryRepository, list_servers, replace_servers}
use leasewebassignment.Store.Path.{base}
use leasewebassignment.Store.Files.{FileSystem}
use leasewebassignment.Store.Upload.{save_upload}

abbrev pub invalid_upload : Error
invalid_upload = plain (codes "invalid upload payload")

abbrev pub invalid_csv_header : Error
invalid_csv_header = plain (codes "invalid csv header")

-- `headers[i]`, or "" beyond the end
abbrev head_or_empty : List Bytes → Bytes
head_or_empty [] = []
head_or_empty (h ∷ _) = h

abbrev tail_or_empty {ℓ} : {A : Type ℓ} → List A → List A
tail_or_empty [] = []
tail_or_empty (_ ∷ hs) = hs

abbrev pub expected_header : List Bytes
expected_header = codes "Model" ∷ codes "RAM" ∷ codes "HDD" ∷ codes "Location" ∷ codes "Price" ∷ []

-- the loop over the expected columns
unfoldable pub check_header : ⦃U : Unicode⦄ → List Bytes → List Bytes → Option Error
check_header [] headers = none
check_header ⦃U⦄ (want ∷ wants) headers =
    let got = head_or_empty headers in
    let rest = check_header wants (tail_or_empty headers) in
    if same got want
    then rest
    else some (
        csv_parse_error 0 (codes "header") (codes "unexpected header") (
          wrapped invalid_csv_header
            (codes ": got " ++ U.quote got ++ codes " want " ++ U.quote want)))

module _ {ℓ} {F : Type ℓ} ⦃fl : Floats F⦄ where
  -- one round of the loop over `rows[1:]`
  unfoldable pub parse_row : ℕ → List Bytes → Result Error (Server F)
  parse_row i (model ∷ ram ∷ hdd ∷ location ∷ price_text ∷ extra) = do
    price ←
        map_err (csv_parse_error (i + 2) (codes "Price") (codes "invalid price"))
          (parse_price price_text)
    ok (record {
      model = trim_space model;
      ram = trim_space ram;
      hdd = trim_space hdd;
      location = trim_space location;
      price = price;
    })
  parse_row i _ = err (csv_parse_error (i + 2) [] (codes "too few columns") invalid_upload)

  unfoldable pub parse_rows : ℕ → List (List Bytes) → Result Error (List (Server F))
  parse_rows i [] = ok []
  parse_rows i (row ∷ rows) = do
    s ← parse_row i row
    parsed ← parse_rows (i + 1) rows
    ok (s ∷ parsed)

-- `csv.Reader.ReadAll` of package encoding/csv, with `TrimLeadingSpace` and `LazyQuotes` set and
-- `FieldsPerRecord` negative.
abbrev pub CsvReader : Type 0
CsvReader = Bytes → Result Error (List (List Bytes))

module _ {ℓ} {F : Type ℓ} ⦃U : Unicode⦄ ⦃fl : Floats F⦄ where
  unfoldable pub parse_table : List (List Bytes) → Result Error (List (Server F))
  parse_table [] = err (csv_parse_error 0 [] (codes "empty csv") invalid_upload)
  parse_table (headers ∷ rows) = elim (check_header expected_header headers) [
    | some e ↦ err e
    | none ↦ parse_rows 0 rows
  ]

  -- `CSVParser.Parse`, of all the bytes that the reader gives
  unfoldable pub parse_csv : CsvReader → Bytes → Result Error (List (Server F))
  parse_csv read_all content =
      map_err (csv_parse_error 0 [] (codes "read csv")) (read_all content) >>= parse_table

-- What the service works on: the repository, nil or not, and the files.
pub record ServiceState {ℓ} (fs : FileSystem) (F : Type ℓ) : Type ℓ where
  pub repo : Option (MemoryRepository F)
  pub files : fs.State

-- A parser of the interface `Parser`.
abbrev pub Parser {ℓ} : Type ℓ → Type ℓ
Parser F = Bytes → Result Error (List (Server F))

abbrev pub upload_error : Error → Error
upload_error e = service_error (codes "upload") e

module _ {ℓ} (fs : FileSystem) {F : Type ℓ} ⦃U : Unicode⦄ where
  unfoldable pub get_servers : ServiceState fs F → ServerFilter → Result Error (List (Server F))
  get_servers st filter = list_servers st.repo filter

  -- `s.repo.ReplaceServers`, with its error
  unfoldable pub store_servers :
      ServiceState fs F → List (Server F) → ServiceState fs F × Option Error
  store_servers st servers = elim (replace_servers st.repo servers) [
    | err e ↦ (st, some (upload_error e))
    | ok repo ↦ (record st { repo = some repo }, none)
  ]

  -- from `s.repo.SaveUpload` on
  unfoldable pub save_and_store :
      Bytes → Bytes → List (Server F) → ServiceState fs F → ServiceState fs F × Option Error
  unfolding store_servers
  save_and_store filename content servers st =
      let (files, saved) = save_upload fs st.repo filename content st.files in
      let st' = record st { files = files } in
      elim saved [ err e ↦ (st', some (upload_error e)) | ok path ↦ store_servers st' servers ]

  -- `UploadServerData`; the argument `read` is what `io.ReadAll(reader)` gives.
  unfoldable pub upload_server_data :
      Parser F → Bytes → Result Error Bytes → ServiceState fs F → ServiceState fs F × Option Error
  unfolding save_and_store
  upload_server_data parse filename (err e) st = (st, some (upload_error e))
  upload_server_data parse filename (ok content) st = elim (parse content) [
    | err e ↦ (st, some (upload_error e))
    | ok servers ↦ save_and_store filename content servers st
  ]

  unfoldable pub load_server_data :
      Parser F → Bytes → ServiceState fs F → ServiceState fs F × Option Error
  unfolding upload_server_data
  load_server_data parse path st = elim (fs.open_file path st.files) [
    | err e ↦ (st, some (service_error (codes "load") e))
    | ok read ↦ upload_server_data parse (base path) read st
  ]
