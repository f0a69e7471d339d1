-- ===== src/Concurrency/Uploads/Effects.antt =====
-- What one step of an upload does to the files. (internal/store/memory_repo.go)
use leasewebassignment.Base.{none, some, ◌≡◌, ◌≢◌, refl, sym, ap, ◌∙◌, ◌⊎◌, inl, inr, ok}
use leasewebassignment.Text.{Bytes}
use leasewebassignment.Text.Case.{Unicode}
use leasewebassignment.Store.Files.{FileSystem, IsFileSystem}
use leasewebassignment.Store.Atomic.{Bytes-dec}
use leasewebassignment.Service.{Parser}
use leasewebassignment.Concurrency.Uploads.Holding.{temp_of, Holds, Began}
use leasewebassignment.Concurrency.Uploads.{
  Job, Pc, synced, renamed, Shared, final_path, Move, begin, parse_fails, name_missing, mkdir,
  mkdir_fails, create, create_fails, write, write_fails, sync, sync_fails, rename, rename_fails,
  remove, close, close_failed, lock, assign, unlock,
}

module _ {ℓ} (fs : FileSystem) {F : Type ℓ} ⦃U : Unicode⦄ (parse : Parser F) (dir : Bytes)
    (job : Job F) where
  -- At each path a step leaves the files alone, or the path is that of the goroutine's temporary
  -- file, or of one that it makes, or it is the final one, which gets the whole upload.
  abbrev pub Effect : Shared fs F → Pc → Shared fs F → Pc → Bytes → Type ℓ
  Effect m pc m' pc' p =
      (fs.content m'.files p ≡ fs.content m.files p)
      ⊎ (temp_of pc ≡ some p)
      ⊎ ((temp_of pc' ≡ some p) × (fs.content m.files p ≡ none))
      ⊎ ((p ≡ final_path dir job)
          × (fs.content m'.files p ≡ some job.content)
          × (parse job.content ≡ ok job.servers))

  -- An operation that only touches the temporary file.
  at_temp :
      {A C : Type 0} {B : Type ℓ} (tmp p : Bytes) → (p ≢ tmp → C) → C ⊎ (some tmp ≡ some p) ⊎ A ⊎ B
  at_temp tmp p others = elim (Bytes-dec p tmp) [
    | inl is_tmp ↦ inr (inl (ap some (sym is_tmp)))
    | inr other ↦ inl (others other)
  ]

  rename-Effect :
      (m : Shared fs F) (tmp : Bytes)
      → IsFileSystem fs
      → (fs.rename tmp (final_path dir job) m.files).1 ≡ none
      → Holds fs parse dir job m (synced tmp)
      → Began fs parse dir job (synced tmp)
      → (p : Bytes)
      → Effect m
          (synced tmp)
          (record m { files = (fs.rename tmp (final_path dir job) m.files).0 })
          (renamed tmp)
          p
  rename-Effect m tmp ax done h began p = elim (Bytes-dec p tmp) [
    | inl is_tmp ↦ inr (inl (ap some (sym is_tmp)))
    | inr other ↦ elim (Bytes-dec p (final_path dir job)) [
      | inl is_final ↦ inr (
          inr (
            inr (
              is_final,
              rw is_final (ax.rename_new tmp (final_path dir job) m.files done ∙ (h tmp refl).1),
              began,
            )))
      | inr neither ↦ inl (ax.rename_others tmp (final_path dir job) m.files p other neither)
    ]
  ]

  pub Effect-Move :
      {m m' : Shared fs F} {pc pc' : Pc}
      → IsFileSystem fs
      → Move fs parse dir job m pc m' pc'
      → Holds fs parse dir job m pc
      → Began fs parse dir job pc
      → (p : Bytes) → Effect m pc m' pc' p
  Effect-Move ax (begin good named) h b p = inl refl
  Effect-Move ax (parse_fails bad) h b p = inl refl
  Effect-Move ax (name_missing good unnamed) h b p = inl refl
  Effect-Move {m} ax (mkdir done) h b p = inl (ax.mkdir_all_same dir m.files p)
  Effect-Move {m} ax (mkdir_fails f) h b p = inl (ax.mkdir_all_same dir m.files p)
  Effect-Move {m} ax (create {tmp = made} done) h b p = elim (Bytes-dec p made) [
    | inl is_tmp ↦
        let (fresh, empty, others) = ax.create_temp_new dir _ m.files made done in
        inr (inr (inl (ap some (sym is_tmp), rw is_tmp fresh)))
    | inr other ↦
        let (fresh, empty, others) = ax.create_temp_new dir _ m.files made done in
        inl (others p other)
  ]
  Effect-Move {m} ax (create_fails {e = x} f) h b p = inl (ax.create_temp_same dir _ m.files x f p)
  Effect-Move {m} ax (write {tmp = t} done) h b p =
      at_temp t p (ax.write_others t job.content m.files p)
  Effect-Move {m} ax (write_fails {tmp = t} f) h b p =
      at_temp t p (ax.write_others t job.content m.files p)
  Effect-Move {m} ax (sync {tmp = t} done) h b p = inl (ax.sync_same t m.files p)
  Effect-Move {m} ax (sync_fails {tmp = t} f) h b p = inl (ax.sync_same t m.files p)
  Effect-Move {m} ax (rename {tmp = t} done) h b p = rename-Effect m t ax done h b p
  Effect-Move {m} ax (rename_fails {tmp = t} {e = x} f) h b p =
      inl (ax.rename_same t (final_path dir job) m.files x f p)
  Effect-Move {m} ax (remove {tmp = t}) h b p = at_temp t p (ax.remove_others t m.files p)
  Effect-Move {m} ax (close {tmp = t}) h b p = inl (ax.close_same t m.files p)
  Effect-Move {m} ax (close_failed {tmp = t}) h b p = inl (ax.close_same t m.files p)
  Effect-Move ax (lock free) h b p = inl refl
  Effect-Move ax assign h b p = inl refl
  Effect-Move ax unlock h b p = inl refl
