-- ===== src/Service/Restart.antt =====
-- A restart from an uploaded file. (internal/service/service.go, internal/store/memory_repo.go)
use leasewebassignment.Base.{
  none, some, ◌≡◌, refl, sym, ap, ◌∙◌, inl, inr, Result, ok, ok-injective, Result-cases,
}
use leasewebassignment.Text.{Bytes}
use leasewebassignment.Text.Case.{Unicode}
use leasewebassignment.Errors.{Error}
use leasewebassignment.Store.{MemoryRepository}
use leasewebassignment.Store.Catalog.{catalog, IsIndexed}
use leasewebassignment.Store.Files.{FileSystem, IsFileSystem}
use leasewebassignment.Store.Atomic.{stored_path}
use leasewebassignment.Store.Path.{base}
use leasewebassignment.Service.{ServiceState, Parser, upload_server_data, load_server_data}
use leasewebassignment.Service.Replace.{upload_server_data_ok}

-- What `io.ReadAll` gives of an open file, if it gives no error, is the content of the file.
abbrev pub ReadsContent : FileSystem → Type 0
ReadsContent fs =
    (path read content : Bytes) (s : fs.State)
    → fs.open_file path s ≡ ok (ok read)
    → fs.content s path ≡ some content
    → read ≡ content

module _ {ℓ} (fs : FileSystem) (ax : IsFileSystem fs) (reads : ReadsContent fs) {F : Type ℓ}
    ⦃U : Unicode⦄ (parse : Parser F) where
  -- A load that returns no error is an upload of what it has read.
  load_server_data_ok :
      (path : Bytes) (st : ServiceState fs F)
      → (load_server_data fs parse path st).1 ≡ none
      → (read : Result Error Bytes) × (fs.open_file path st.files ≡ ok read)
        × (load_server_data fs parse path st ≡ upload_server_data fs parse (base path) read st)
  unfolding load_server_data
  load_server_data_ok path st h = elim (Result-cases (fs.open_file path st.files)) [
    | inr (e, failed) ↦ absurd (cc (rw (failed, load_server_data) at h))
    | inl (read, opened) ↦ (read, opened, rw (opened, load_server_data) refl)
  ]

  -- Two repositories with the same catalog, each with its index.
  pub record SameCatalog (st st' : ServiceState fs F) : Type ℓ where
    pub repo : MemoryRepository F
    pub repo' : MemoryRepository F
    pub repo_is : st.repo ≡ some repo
    pub repo'_is : st'.repo ≡ some repo'
    pub indexed : IsIndexed repo
    pub indexed' : IsIndexed repo'
    pub catalog_is : catalog repo' ≡ catalog repo

  -- When an upload returned no error, and later, with the files as it left them, a load from the path
  -- where it is kept returns no error, in any repository, as after a restart, then the catalog is again
  -- that of the upload, in order and indexed. The files are read as they are.
  pub load_server_data-upload_server_data :
      (filename : Bytes) (r r' : MemoryRepository F) (s : fs.State) (read : Result Error Bytes)
      → (upload_server_data fs parse filename read (record { repo = some r; files = s })).1 ≡ none
      → let uploaded =
          (upload_server_data fs parse filename read (record { repo = some r; files = s })).0 in
        let loaded =
          load_server_data fs parse
            (stored_path r filename)
            (record { repo = some r'; files = uploaded.files }) in
        loaded.1 ≡ none → SameCatalog uploaded loaded.0
  load_server_data-upload_server_data filename r r' s read done reloaded =
      let (content, servers, _, parsed, took) =
        upload_server_data_ok fs ax parse filename r s read done in
      let files =
        (upload_server_data fs parse filename read (record { repo = some r; files = s })).0.files in
      let path = stored_path r filename in
      let (read', opened, is_upload) =
        load_server_data_ok path (record { repo = some r'; files = files }) reloaded in
      let (content', servers', is_read, parsed', took') =
        upload_server_data_ok fs ax parse (base path) r' files read'
          (sym (ap (λ x. x.1) is_upload) ∙ reloaded) in
      let same_content : content' ≡ content =
        reads path content' content files (opened ∙ ap (λ x. ok x) is_read) took.kept in
      let same_servers : servers' ≡ servers =
        ok-injective (sym parsed' ∙ ap parse same_content ∙ parsed) in
      record {
        repo = took.repo;
        repo' = took'.repo;
        repo_is = took.repo_is;
        repo'_is = ap (λ x. x.0.repo) is_upload ∙ took'.repo_is;
        indexed = took.indexed;
        indexed' = took'.indexed;
        catalog_is = took'.catalog_is ∙ same_servers ∙ sym took.catalog_is;
      }
