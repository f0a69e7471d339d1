-- ===== src/Concurrency/Uploads/Invariant.antt =====
-- What holds of the files and of the goroutines while uploads run.
-- (internal/service/service.go, internal/store/memory_repo.go)
use leasewebassignment.Base.{ℕ, ◌<◌, map, none, some, ◌≡◌, ◌≢◌, refl, ◌⊎◌, inr, ok}
use leasewebassignment.Text.{Bytes}
use leasewebassignment.Text.Case.{Unicode}
use leasewebassignment.Store.{new_indexed_server}
use leasewebassignment.Store.Files.{FileSystem}
use leasewebassignment.Service.{Parser}
use leasewebassignment.Concurrency.Uploads.{
  Job, Pc, waiting, parsed, dir_made, created, written, synced, discarding, renamed, removed, saved,
  replacing, replaced, stored, failed, Shared, System, final_path, Move, begin, parse_fails,
  name_missing, mkdir, mkdir_fails, create, create_fails, write, write_fails, sync, sync_fails,
  rename, rename_fails, remove, close, close_failed, lock, assign, unlock,
}
use leasewebassignment.Concurrency.Uploads.Holding.{temp_of, IsTemp, Held, Holds, Began}

module _ {ℓ} (fs : FileSystem) {F : Type ℓ} ⦃U : Unicode⦄ (parse : Parser F) (dir : Bytes) (n : ℕ)
    (jobs : ℕ → Job F) (m₀ : Shared fs F) where
  -- No upload is kept under a name that `os.CreateTemp` gives to a temporary file.
  abbrev pub IsApart : Type 0
  IsApart = (i j : ℕ) → IsTemp fs parse dir (jobs i) (final_path dir (jobs j)) → ⊥

  -- The file at a path is what it was, or the whole of an upload that was parsed.
  abbrev pub IsWhole : Shared fs F → Bytes → Type ℓ
  IsWhole m p =
      (fs.content m.files p ≡ fs.content m₀.files p)
      ⊎ ((i : ℕ) × (i < n)
          × (final_path dir (jobs i) ≡ p)
          × (fs.content m.files p ≡ some (jobs i).content)
          × (parse (jobs i).content ≡ ok (jobs i).servers))

  -- The catalog is what it was, or that of an upload that was parsed.
  abbrev pub IsStocked : Shared fs F → Type ℓ
  IsStocked m =
      (m.servers ≡ m₀.servers)
      ⊎ ((i : ℕ) × (i < n)
          × (m.servers ≡ map new_indexed_server (jobs i).servers)
          × (parse (jobs i).content ≡ ok (jobs i).servers))

  pub record IsSound (s : System fs F) : Type ℓ where
    pub began : (j : ℕ) → Began fs parse dir (jobs j) (s.places j)
    pub holds : (j : ℕ) → Holds fs parse dir (jobs j) s.shared (s.places j)
    pub distinct :
        (i j : ℕ)
        → i ≢ j
        → (tmp : Bytes) → temp_of (s.places i) ≡ some tmp
        → temp_of (s.places j) ≡ some tmp
        → ⊥
    pub whole : (p : Bytes) → ((i : ℕ) → IsTemp fs parse dir (jobs i) p → ⊥) → IsWhole s.shared p
    pub stocked : IsStocked s.shared

  pub Held-none :
      (job : Job F) (pc : Pc) (tmp : Bytes)
      → temp_of pc ≡ some tmp
      → Held fs parse dir job pc none
      → ⊥
  Held-none job (created t) tmp e h = cc
  Held-none job (written t) tmp e h = cc
  Held-none job (synced t) tmp e h = cc
  Held-none job (discarding t) tmp e h = h refl
  Held-none job waiting tmp e h = cc
  Held-none job parsed tmp e h = cc
  Held-none job dir_made tmp e h = cc
  Held-none job (renamed t) tmp e h = cc
  Held-none job (removed t) tmp e h = cc
  Held-none job saved tmp e h = cc
  Held-none job replacing tmp e h = cc
  Held-none job replaced tmp e h = cc
  Held-none job stored tmp e h = cc
  Held-none job failed tmp e h = cc

  pub IsStocked-Move :
      (i : ℕ) {m m' : Shared fs F} {pc pc' : Pc}
      → i < n
      → Move fs parse dir (jobs i) m pc m' pc'
      → Began fs parse dir (jobs i) pc
      → IsStocked m
      → IsStocked m'
  IsStocked-Move i below (begin good named) b h = h
  IsStocked-Move i below (parse_fails bad) b h = h
  IsStocked-Move i below (name_missing good unnamed) b h = h
  IsStocked-Move i below (mkdir done) b h = h
  IsStocked-Move i below (mkdir_fails e) b h = h
  IsStocked-Move i below (create done) b h = h
  IsStocked-Move i below (create_fails e) b h = h
  IsStocked-Move i below (write done) b h = h
  IsStocked-Move i below (write_fails e) b h = h
  IsStocked-Move i below (sync done) b h = h
  IsStocked-Move i below (sync_fails e) b h = h
  IsStocked-Move i below (rename done) b h = h
  IsStocked-Move i below (rename_fails e) b h = h
  IsStocked-Move i below remove b h = h
  IsStocked-Move i below close b h = h
  IsStocked-Move i below close_failed b h = h
  IsStocked-Move i below (lock free) b h = h
  IsStocked-Move i below assign b h = inr (i, below, refl, b)
  IsStocked-Move i below unlock b h = h
