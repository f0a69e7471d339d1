-- ===== src/Tests/ServiceRuns.antt =====
-- Parsing and uploading at concrete values.
use leasewebassignment.Base.{
  ℕ, sym, ok-injective, true, false, List, [], ◌∷◌, none, some, ◌≡◌, refl, Result, ok, err,
}
use leasewebassignment.Text.{Bytes, codes, same, join}
use leasewebassignment.Text.Space.{trim_space}
use leasewebassignment.Text.Decimal.{atoi}
use leasewebassignment.Errors.{Error, plain, csv_parse_error}
use leasewebassignment.Model.{Server, parse_price}
use leasewebassignment.Store.{replace_servers}
use leasewebassignment.Store.Path.{base, join_path, clean}
use leasewebassignment.Store.Files.{FileSystem}
use leasewebassignment.Store.Upload.{save_upload, save_error}
use leasewebassignment.Service.{
  invalid_upload, expected_header, parse_row, parse_rows, parse_table, upload_error,
  upload_server_data, load_server_data, ServiceState,
}
use leasewebassignment.Service.Rows.{Rows, FailsAt, parse_rows_iff, parse_rows-FailsAt}
use leasewebassignment.Service.Header.{parse_table_iff}
use leasewebassignment.Service.Restart.{
  ReadsContent, SameCatalog, load_server_data-upload_server_data,
}
use leasewebassignment.Store.Atomic.{stored_path}
use leasewebassignment.Service.Replace.{
  Took, Refused, upload_server_data_ok, upload_server_data_err,
}
use leasewebassignment.Tests.Parts.{
  plain_unicode, whole_floats, memory_disk, memory_disk_lawful, empty_disk, dell, empty_repository,
  parse_one,
}

abbrev dell_row : List Bytes
dell_row =
    codes "Dell R210 "
    ∷ codes "16GBDDR3"
    ∷ codes "2x2TBSATA2"
    ∷ codes "AmsterdamAMS-01"
    ∷ codes "$49"
    ∷ []

abbrev short_row : List Bytes
short_row = codes "Dell R210" ∷ []

parse_rows_run : parse_rows 0 (dell_row ∷ []) ≡ ok (dell ∷ [])
unfolding parse_rows parse_row trim_space parse_price atoi
parse_rows_run = refl

held : Rows (dell_row ∷ []) (dell ∷ [])
held = (parse_rows_iff 0 (dell_row ∷ []) (dell ∷ [])).0 parse_rows_run

abbrev short_row_error : Error
short_row_error = csv_parse_error 3 [] (codes "too few columns") invalid_upload

parse_rows_err_run : parse_rows {F = ℕ} 0 (dell_row ∷ short_row ∷ []) ≡ err short_row_error
unfolding parse_rows parse_row trim_space parse_price atoi
parse_rows_err_run = refl

parse_rows-FailsAt_example : FailsAt ℕ 0 (dell_row ∷ short_row ∷ []) short_row_error
parse_rows-FailsAt_example = parse_rows-FailsAt 0 (dell_row ∷ short_row ∷ []) parse_rows_err_run

parse_table_iff_example : parse_table (expected_header ∷ dell_row ∷ []) ≡ ok (dell ∷ [])
parse_table_iff_example =
    (parse_table_iff (expected_header ∷ dell_row ∷ []) (dell ∷ [])).1
      ([], dell_row ∷ [], refl, held)

abbrev disk : FileSystem
disk = memory_disk false

upload_run :
    (upload_server_data disk parse_one
      (codes "a.csv")
      (ok (codes "x"))
      (record { repo = some empty_repository; files = empty_disk })).1
    ≡ none
unfolding upload_server_data save_upload base join_path same replace_servers
upload_run = refl

upload_server_data_ok_example :
    (content : Bytes) × (servers : List (Server ℕ)) × (◌≡◌ {A = Result Error Bytes}
      (ok (codes "x"))
      (ok content))
    × (parse_one content ≡ ok servers)
    × Took disk
        (memory_disk_lawful false)
        (codes "a.csv")
        content
        servers
        empty_repository
        empty_disk
        (upload_server_data disk parse_one
          (codes "a.csv")
          (ok (codes "x"))
          (record { repo = some empty_repository; files = empty_disk })).0
upload_server_data_ok_example =
    upload_server_data_ok disk (memory_disk_lawful false) parse_one (codes "a.csv") empty_repository
      empty_disk (ok (codes "x")) upload_run

upload_err_run :
    (upload_server_data
      (memory_disk true)
      parse_one
      (codes "a.csv")
      (ok (codes "x"))
      (record { repo = some empty_repository; files = empty_disk })).1
    ≡ some (upload_error (save_error (plain (codes "rename"))))
unfolding upload_server_data save_upload base join_path same
upload_err_run = refl

upload_server_data_err_example :
    Refused
      (memory_disk true)
      (memory_disk_lawful true)
      empty_repository
      empty_disk
      (upload_server_data
        (memory_disk true)
        parse_one
        (codes "a.csv")
        (ok (codes "x"))
        (record { repo = some empty_repository; files = empty_disk })).0
      (upload_error (save_error (plain (codes "rename"))))
upload_server_data_err_example =
    upload_server_data_err (memory_disk true) (memory_disk_lawful true) parse_one (codes "a.csv")
      empty_repository empty_disk (ok (codes "x"))
      (upload_error (save_error (plain (codes "rename")))) upload_err_run

disk-ReadsContent : ReadsContent disk
disk-ReadsContent path read content s opened there =
    sym (ok-injective (ok-injective (rw there at opened)))

abbrev uploaded : ServiceState disk ℕ
uploaded =
    (upload_server_data disk parse_one (codes "a.csv") (ok (codes "x"))
      (record { repo = some empty_repository; files = empty_disk })).0

reload_run :
    (load_server_data disk parse_one
      (stored_path empty_repository (codes "a.csv"))
      (record { repo = some empty_repository; files = uploaded.files })).1
    ≡ none
unfolding load_server_data upload_server_data save_upload base join_path clean join same
    replace_servers
reload_run = refl

load_server_data-upload_server_data_example :
    SameCatalog disk
      (memory_disk_lawful false)
      disk-ReadsContent
      parse_one
      uploaded
      (load_server_data disk parse_one
        (stored_path empty_repository (codes "a.csv"))
        (record { repo = some empty_repository; files = uploaded.files })).0
load_server_data-upload_server_data_example =
    load_server_data-upload_server_data disk (memory_disk_lawful false) disk-ReadsContent parse_one
      (codes "a.csv") empty_repository empty_repository empty_disk (ok (codes "x")) upload_run
      reload_run
