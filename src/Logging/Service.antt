-- ===== src/Logging/Service.antt =====
-- The logging service around the service. (internal/service/logging.go, internal/service/service.go)
use leasewebassignment.Base.{List, [], ◌∷◌, ◌++◌, Option, none, some, ◌≡◌, ◌≢◌, refl, ◌↔◌, Result}
use leasewebassignment.Text.{Bytes, codes}
use leasewebassignment.Text.Case.{Unicode}
use leasewebassignment.Errors.{Error}
use leasewebassignment.Model.{Server, ServerFilter}
use leasewebassignment.Store.Files.{FileSystem}
use leasewebassignment.Service.{
  ServiceState, Parser, get_servers, upload_server_data, load_server_data,
}
use leasewebassignment.Logging.{error_level, Line, log_at_level}

-- the interface `Service`, of services whose state is of a type `S`
pub record Service {ℓ ℓ'} (F : Type ℓ) (S : Type ℓ') : Type (ℓ ⊔ ℓ') where
  pub get_servers_of : S → ServerFilter → Result Error (List (Server F))
  pub upload_of : Bytes → Result Error Bytes → S → S × Option Error
  pub load_of : Bytes → S → S × Option Error

-- `UploadServerData` and `LoadServerData` of a `loggingService`: the call, and then its line
abbrev logged {ℓ} :
    {S : Type ℓ} → (Line → S → S) → Bytes → Bytes → Bytes → S × Option Error → S × Option Error
logged logger msg key value (s, failed) = (logger (log_at_level failed msg key value) s, failed)

module _ {ℓ ℓ'} {F : Type ℓ} {S : Type ℓ'} where
  -- `NewLoggingService`; a nil logger is `none`.
  unfoldable pub new_logging_service : Service F S → Option (Line → S → S) → Service F S
  unfolding log_at_level
  new_logging_service next none = next
  new_logging_service next (some logger) = record next {
    upload_of = λ filename read s.
        logged logger (codes "UploadServerData") (codes "filename") filename
          (next.upload_of filename read s);
    load_of =
        λ path s. logged logger (codes "LoadServerData") (codes "path") path (next.load_of path s);
  }

level-log_at_level :
    (failed : Option Error) (msg key value : Bytes)
    → ((log_at_level failed msg key value).level ≡ error_level) ↔ (failed ≢ none)
unfolding log_at_level
level-log_at_level none msg key value = (λ e. absurd (cc e), λ h. absurd (h refl))
level-log_at_level (some e) msg key value = (λ _ h. cc h, λ h. refl)

-- The state of the service, and the log.
abbrev pub WithLog {ℓ} : FileSystem → Type ℓ → Type ℓ
WithLog fs F = ServiceState fs F × List Line

abbrev pub append_line {ℓ} : {S : Type ℓ} → Line → S × List Line → S × List Line
append_line line (st, lines) = (st, lines ++ (line ∷ []))

module _ {ℓ} (fs : FileSystem) {F : Type ℓ} ⦃U : Unicode⦄ where
  abbrev beside : List Line → ServiceState fs F × Option Error → WithLog fs F × Option Error
  beside lines (st, failed) = ((st, lines), failed)

  -- `ServerService`, which does not log
  unfoldable pub server_service : Parser F → Service F (WithLog fs F)
  unfolding get_servers upload_server_data load_server_data
  server_service parse = record {
    get_servers_of = λ (st, lines) filter. get_servers fs st filter;
    upload_of =
        λ filename read (st, lines). beside lines (upload_server_data fs parse filename read st);
    load_of = λ path (st, lines). beside lines (load_server_data fs parse path st);
  }

  -- The service as `main` builds it.
  abbrev pub main_service : Parser F → Service F (WithLog fs F)
  main_service parse = new_logging_service (server_service parse) (some append_line)

  -- What a call did to the state, its error, and the one line that it left.
  pub record Transparent (msg key value : Bytes) (lines : List Line)
      (plain : ServiceState fs F × Option Error) (full : WithLog fs F × Option Error) : Type ℓ where
    pub line : Line
    pub result_is : full ≡ ((plain.0, lines ++ (line ∷ [])), plain.1)
    pub failure_logged : (line.level ≡ error_level) ↔ (plain.1 ≢ none)
    pub subject_is : (line.msg ≡ msg) × (line.key ≡ key) × (line.value ≡ value)

  logged-Transparent :
      (msg key value : Bytes) (lines : List Line) (plain : ServiceState fs F × Option Error)
      → Transparent msg key value lines plain
          (logged append_line msg key value (beside lines plain))
  unfolding log_at_level
  logged-Transparent msg key value lines (st, failed) = record {
    line = log_at_level failed msg key value;
    result_is = refl;
    failure_logged = level-log_at_level failed msg key value;
    subject_is = (refl, refl, refl);
  }

  -- The logging service does what the service does, with the same error, and leaves one line for each
  -- upload and each load, with level error exactly if it failed; queries leave none.
  pub main_service-Transparent :
      (parse : Parser F) (st : ServiceState fs F) (lines : List Line)
      → ((filename : Bytes) (read : Result Error Bytes)
          → Transparent
              (codes "UploadServerData")
              (codes "filename")
              filename
              lines
              (upload_server_data fs parse filename read st)
              ((main_service parse).upload_of filename read (st, lines)))
        × ((path : Bytes)
            → Transparent
                (codes "LoadServerData")
                (codes "path")
                path
                lines
                (load_server_data fs parse path st)
                ((main_service parse).load_of path (st, lines)))
        × ((filter : ServerFilter)
            → (main_service parse).get_servers_of (st, lines) filter ≡ get_servers fs st filter)
  unfolding new_logging_service server_service
  main_service-Transparent parse st lines = (
    λ filename read.
        logged-Transparent (codes "UploadServerData") (codes "filename") filename lines
          (upload_server_data fs parse filename read st),
    λ path.
        logged-Transparent (codes "LoadServerData") (codes "path") path lines
          (load_server_data fs parse path st),
    λ filter. refl,
  )
