-- ===== src/Store/Durable.antt =====
-- `SaveUpload` as its caller sees it. (internal/store/memory_repo.go)
use leasewebassignment.Base.{some, ◌≡◌, refl, ok, err}
use leasewebassignment.Text.{Bytes}
use leasewebassignment.Errors.{Error}
use leasewebassignment.Store.{MemoryRepository}
use leasewebassignment.Store.Files.{FileSystem, SameBut, Same, IsFileSystem}
use leasewebassignment.Store.Upload.{save_upload}
use leasewebassignment.Store.Atomic.{stored_path, Removes, save-Total}

module _ {ℓ} {F : Type ℓ} (fs : FileSystem) (ax : IsFileSystem fs) (r : MemoryRepository F)
    (filename bytes : Bytes) (s : fs.State) where
  -- When `SaveUpload` succeeds, the path that it returns is the upload directory joined with the
  -- last element of the file name, the file there holds exactly the uploaded bytes, and the files at
  -- all other paths are as they were: no temporary file is left.
  pub save_upload_ok :
      (path : Bytes)
      → (save_upload fs (some r) filename bytes s).1 ≡ ok path
      → (path ≡ stored_path r filename)
        × (fs.content (save_upload fs (some r) filename bytes s).0 path ≡ some bytes)
        × SameBut fs path s (save_upload fs (some r) filename bytes s).0
  save_upload_ok path e =
      let (is_final, held, others) = rw e at (save-Total fs ax r filename bytes s) in
      rw is_final (refl, held, others)

  -- When `SaveUpload` fails, at whichever step, every file that existed is there with its content.
  pub save_upload_err :
      (e : Error)
      → (save_upload fs (some r) filename bytes s).1 ≡ err e
      → (p c : Bytes) → fs.content s p ≡ some c
      → fs.content (save_upload fs (some r) filename bytes s).0 p ≡ some c
  save_upload_err e failed = (rw failed at (save-Total fs ax r filename bytes s)).0

  -- When `SaveUpload` fails and `os.Remove` works, the files are exactly as they were.
  pub save_upload_err_clean :
      (e : Error)
      → (save_upload fs (some r) filename bytes s).1 ≡ err e
      → Removes fs ax
      → Same fs s (save_upload fs (some r) filename bytes s).0
  save_upload_err_clean e failed = (rw failed at (save-Total fs ax r filename bytes s)).1
