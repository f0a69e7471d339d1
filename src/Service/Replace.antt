-- ===== src/Service/Replace.antt =====
-- `UploadServerData` as its caller sees it. (internal/service/service.go)
use leasewebassignment.Base.{
  List, [], none, some, ◌≡◌, refl, sym, ap, ◌∙◌, inl, inr, Result, ok, err, Result-cases,
  ok-injective,
}
use leasewebassignment.Base.Options.{eq_of_some}
use leasewebassignment.Text.{Bytes, codes}
use leasewebassignment.Text.Case.{Unicode}
use leasewebassignment.Errors.{Error, service_error}
use leasewebassignment.Model.{Server}
use leasewebassignment.Store.{MemoryRepository, replace_servers}
use leasewebassignment.Store.Catalog.{catalog, IsIndexed, replace_servers-IsIndexed}
use leasewebassignment.Store.Files.{FileSystem, SameBut, IsFileSystem}
use leasewebassignment.Store.Upload.{save_upload}
use leasewebassignment.Store.Atomic.{stored_path}
use leasewebassignment.Store.Durable.{save_upload_ok, save_upload_err}
use leasewebassignment.Service.{
  ServiceState, Parser, upload_error, save_and_store, upload_server_data,
}

module _ {ℓ} (fs : FileSystem) (ax : IsFileSystem fs) {F : Type ℓ} ⦃U : Unicode⦄ where
  -- The new catalog is the parsed one, and the upload is kept under its name.
  pub record Took (filename content : Bytes) (servers : List (Server F)) (r : MemoryRepository F)
      (s : fs.State) (st : ServiceState fs F) : Type ℓ where
    pub repo : MemoryRepository F
    pub repo_is : st.repo ≡ some repo
    pub indexed : IsIndexed repo
    pub catalog_is : catalog repo ≡ servers
    pub upload_dir_is : repo.upload_dir ≡ r.upload_dir
    pub kept : fs.content st.files (stored_path r filename) ≡ some content
    pub others : SameBut fs (stored_path r filename) s st.files

  -- The catalog is untouched, every file is there with its content, and the error says "upload".
  pub record Refused (r : MemoryRepository F) (s : fs.State) (st : ServiceState fs F) (e : Error)
      : Type ℓ where
    pub repo_is : st.repo ≡ some r
    pub files_kept : (p c : Bytes) → fs.content s p ≡ some c → fs.content st.files p ≡ some c
    pub cause : Error
    pub error_is : e ≡ service_error (codes "upload") cause

  module _ (parse : Parser F) (filename : Bytes) (r : MemoryRepository F) (s : fs.State) where
    abbrev pub before : ServiceState fs F
    before = record { repo = some r; files = s }

    save_ok :
        (content : Bytes) (servers : List (Server F)) {path : Bytes}
        → (save_upload fs (some r) filename content s).1 ≡ ok path
        → ((save_and_store fs filename content servers before).1 ≡ none)
          × Took filename content servers r s (save_and_store fs filename content servers before).0
    unfolding save_and_store replace_servers
    save_ok content servers {path} saved =
        let (_, _, (r', replaced, indexed, catalog_is, dir)) =
          replace_servers-IsIndexed [] r servers in
        let (path_is, kept, others) = save_upload_ok fs ax r filename content s path saved in
        rw (saved, save_and_store)
          (
            refl,
            record {
              repo = r';
              repo_is = ap some (ok-injective replaced);
              indexed = indexed;
              catalog_is = catalog_is;
              upload_dir_is = dir;
              kept = rw (← path_is) kept;
              others = rw (← path_is) others;
            },
          )

    save_err :
        (content : Bytes) (servers : List (Server F)) {x : Error}
        → (save_upload fs (some r) filename content s).1 ≡ err x
        → ((save_and_store fs filename content servers before).1 ≡ some (upload_error x))
          × Refused r s (save_and_store fs filename content servers before).0 (upload_error x)
    unfolding save_and_store
    save_err content servers {x} failed =
        rw (failed, save_and_store)
          (
            refl,
            record {
              repo_is = refl;
              files_kept = save_upload_err fs ax r filename content s x failed;
              cause = x;
              error_is = refl;
            },
          )

    refuse : (x : Error) → Refused r s before (upload_error x)
    refuse x = record { repo_is = refl; files_kept = λ p c h. h; cause = x; error_is = refl }

    -- When `UploadServerData` returns no error, the reader gave a content, the parser made servers
    -- of it, the catalog is those servers in order and indexed, and the content is kept under its
    -- name in the upload directory, with every other file as it was.
    pub upload_server_data_ok :
        (read : Result Error Bytes)
        → (upload_server_data fs parse filename read before).1 ≡ none
        → (content : Bytes) × (servers : List (Server F)) × (read ≡ ok content)
          × (parse content ≡ ok servers)
          × Took filename content servers r s (upload_server_data fs parse filename read before).0
    unfolding upload_server_data
    upload_server_data_ok (err e) h = cc
    upload_server_data_ok (ok content) h = elim (Result-cases (parse content)) [
      | inr (x, bad) ↦ absurd (cc (rw (bad, upload_server_data) at h))
      | inl (servers, good) ↦ elim (Result-cases (save_upload fs (some r) filename content s).1) [
        | inr (x, failed) ↦
            absurd
              (cc (sym (save_err content servers failed).0 ∙ (rw (good, upload_server_data) at h)))
        | inl (path, saved) ↦ (
          content,
          servers,
          refl,
          good,
          rw (good, upload_server_data) (save_ok content servers saved).1,
        )
      ]
    ]

    -- When `UploadServerData` returns an error, from the reader, the parser or the file system, the
    -- catalog is the one before, every file that existed has its content, and the error is a
    -- service error of the operation "upload".
    pub upload_server_data_err :
        (read : Result Error Bytes) (e : Error)
        → (upload_server_data fs parse filename read before).1 ≡ some e
        → Refused r s (upload_server_data fs parse filename read before).0 e
    unfolding upload_server_data
    upload_server_data_err (err x) e h = rw (← eq_of_some h) (refuse x)
    upload_server_data_err (ok content) e h = elim (Result-cases (parse content)) [
      | inr (x, bad) ↦
          let same : upload_error x ≡ e = eq_of_some (rw (bad, upload_server_data) at h) in
          rw (bad, upload_server_data) (rw (← same) (refuse x))
      | inl (servers, good) ↦
          let h' = rw (good, upload_server_data) at h in
          elim (Result-cases (save_upload fs (some r) filename content s).1) [
            | inl (path, saved) ↦ absurd (cc (sym (save_ok content servers saved).0 ∙ h'))
            | inr (x, failed) ↦
                let (stopped, refused) = save_err content servers failed in
                let same : upload_error x ≡ e = eq_of_some (sym stopped ∙ h') in
                rw (good, upload_server_data) (rw (← same) refused)
          ]
    ]
