-- ===== src/Store/Upload.antt =====
-- `SaveUpload`: the upload is written to a temporary file, which then takes its final name.
-- (internal/store/memory_repo.go)
use leasewebassignment.Base.{[], ◌∷◌, ◌++◌, Option, none, some, if◌then◌else◌, Result, ok, err}
use leasewebassignment.Text.{Bytes, codes, is_empty}
use leasewebassignment.Errors.{Error, store_error}
use leasewebassignment.Store.{MemoryRepository, uninitialized, source_path_required}
use leasewebassignment.Store.Path.{base, join_path}
use leasewebassignment.Store.Files.{FileSystem}

abbrev pub save_error : Error → Error
save_error e = store_error (codes "save_upload") e

module _ (fs : FileSystem) where
  -- `_ = os.Remove(tmpFile.Name()); return "", &StoreError{…}`
  unfoldable pub discard : Bytes → Error → fs.State → fs.State × Result Error Bytes
  discard tmp e s = ((fs.remove tmp s).0, err (save_error e))

  -- from `os.Rename` on
  unfoldable pub publish : Bytes → Bytes → fs.State → fs.State × Result Error Bytes
  unfolding discard
  publish tmp final_path s =
      let (s', failed) = fs.rename tmp final_path s in
      elim failed [ some e ↦ discard tmp e s' | none ↦ (s', ok final_path) ]

  -- from `tmpFile.Sync` on
  unfoldable pub sync_and_publish : Bytes → Bytes → fs.State → fs.State × Result Error Bytes
  unfolding discard publish
  sync_and_publish tmp final_path s =
      let (s', failed) = fs.sync tmp s in
      elim failed [ some e ↦ discard tmp e s' | none ↦ publish tmp final_path s' ]

  -- from `tmpFile.Write` on
  unfoldable pub write_and_publish :
      Bytes → Bytes → Bytes → fs.State → fs.State × Result Error Bytes
  unfolding discard sync_and_publish
  write_and_publish tmp final_path content s =
      let (s', failed) = fs.write tmp content s in
      elim failed [ some e ↦ discard tmp e s' | none ↦ sync_and_publish tmp final_path s' ]

  -- `defer func() { _ = tmpFile.Close() }()`
  abbrev pub close_after : Bytes → fs.State × Result Error Bytes → fs.State × Result Error Bytes
  close_after tmp (s, r) = (fs.close tmp s, r)

  -- from `os.CreateTemp` on
  unfoldable pub create_and_publish :
      Bytes → Bytes → Bytes → fs.State → fs.State × Result Error Bytes
  unfolding write_and_publish
  create_and_publish upload_dir final_name content s =
      let (s', tmp_file) = fs.create_temp upload_dir (final_name ++ codes "-*.tmp") s in
      elim tmp_file [
        | err e ↦ (s', err (save_error e))
        | ok tmp ↦
            close_after tmp
              (write_and_publish tmp (join_path (upload_dir ∷ final_name ∷ [])) content s')
      ]

  unfoldable pub save_upload {ℓ} :
      {F : Type ℓ}
      → Option (MemoryRepository F)
      → Bytes
      → Bytes
      → fs.State
      → fs.State × Result Error Bytes
  unfolding create_and_publish
  save_upload none filename content s = (s, err (save_error uninitialized))
  save_upload (some r) filename content s =
      if is_empty filename
      then (s, err (save_error source_path_required))
      else (let (s', failed) = fs.mkdir_all r.upload_dir s in
          elim failed [
            | some e ↦ (s', err (save_error e))
            | none ↦ create_and_publish r.upload_dir (base filename) content s'
          ])
