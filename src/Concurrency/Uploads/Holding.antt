-- ===== src/Concurrency/Uploads/Holding.antt =====
-- What a goroutine has in its temporary file. (internal/store/memory_repo.go)
use leasewebassignment.Base.{[], Option, none, some, ◌≡◌, ◌≢◌, refl, sym, ◌∙◌, ◌⊎◌, inl, inr, ok}
use leasewebassignment.Text.{Bytes}
use leasewebassignment.Text.Case.{Unicode}
use leasewebassignment.Store.Files.{FileSystem, IsFileSystem}
use leasewebassignment.Service.{Parser}
use leasewebassignment.Concurrency.Uploads.{
  Job, Pc, waiting, created, written, synced, discarding, failed, Shared, final_path, temp_pattern,
  Move, begin, parse_fails, name_missing, mkdir, mkdir_fails, create, create_fails, write,
  write_fails, sync, sync_fails, rename, rename_fails, remove, close, close_failed, lock, assign,
  unlock,
}

-- The temporary file that a goroutine has.
abbrev pub temp_of : Pc → Option Bytes
temp_of (created tmp) = some tmp
temp_of (written tmp) = some tmp
temp_of (synced tmp) = some tmp
temp_of (discarding tmp) = some tmp
temp_of _ = none

module _ {ℓ} (fs : FileSystem) {F : Type ℓ} ⦃U : Unicode⦄ (parse : Parser F) (dir : Bytes) where
  -- A name that `os.CreateTemp` may give to the temporary file of a job.
  abbrev pub IsTemp : Job F → Bytes → Type 0
  IsTemp job name = (s : fs.State) × ((fs.create_temp dir (temp_pattern job) s).1 ≡ ok name)

  module _ (job : Job F) where
    -- What the temporary file has in it.
    abbrev pub Held : Pc → Option Bytes → Type 0
    Held (created tmp) held = held ≡ some []
    Held (written tmp) held = held ≡ some job.content
    Held (synced tmp) held = held ≡ some job.content
    Held (discarding tmp) held = held ≢ none
    Held _ held = Unit

    abbrev pub Holds : Shared fs F → Pc → Type 0
    Holds m pc =
        (tmp : Bytes) → temp_of pc ≡ some tmp → IsTemp job tmp × Held pc (fs.content m.files tmp)

    -- The upload was parsed.
    abbrev pub Began : Pc → Type ℓ
    Began waiting = Unit
    Began failed = Unit
    Began _ = parse job.content ≡ ok job.servers

    pub Began-Move :
        {m m' : Shared fs F} {pc pc' : Pc}
        → Move fs parse dir job m pc m' pc'
        → Began pc
        → Began pc'
    Began-Move (begin good named) h = good
    Began-Move (parse_fails bad) h = tt
    Began-Move (name_missing good unnamed) h = tt
    Began-Move (mkdir done) h = h
    Began-Move (mkdir_fails e) h = tt
    Began-Move (create done) h = h
    Began-Move (create_fails e) h = tt
    Began-Move (write done) h = h
    Began-Move (write_fails e) h = h
    Began-Move (sync done) h = h
    Began-Move (sync_fails e) h = h
    Began-Move (rename done) h = h
    Began-Move (rename_fails e) h = h
    Began-Move remove h = h
    Began-Move close h = h
    Began-Move close_failed h = tt
    Began-Move (lock free) h = h
    Began-Move assign h = h
    Began-Move unlock h = h

    -- A temporary file is the one that the goroutine had, or a new one.
    pub temp_of-Move :
        {m m' : Shared fs F} {pc pc' : Pc}
        → IsFileSystem fs
        → Move fs parse dir job m pc m' pc'
        → (tmp : Bytes) → temp_of pc' ≡ some tmp
        → (temp_of pc ≡ some tmp) ⊎ (fs.content m.files tmp ≡ none)
    temp_of-Move ax (begin good named) tmp h = cc
    temp_of-Move ax (parse_fails bad) tmp h = cc
    temp_of-Move ax (name_missing good unnamed) tmp h = cc
    temp_of-Move ax (mkdir done) tmp h = cc
    temp_of-Move ax (mkdir_fails e) tmp h = cc
    temp_of-Move {m} ax (create {tmp = made} done) tmp h =
        let same : made ≡ tmp = cc in
        inr (rw (← same) (ax.create_temp_new dir _ m.files made done).0)
    temp_of-Move ax (create_fails e) tmp h = cc
    temp_of-Move ax (write done) tmp h = inl h
    temp_of-Move ax (write_fails e) tmp h = inl h
    temp_of-Move ax (sync done) tmp h = inl h
    temp_of-Move ax (sync_fails e) tmp h = inl h
    temp_of-Move ax (rename done) tmp h = cc
    temp_of-Move ax (rename_fails e) tmp h = inl h
    temp_of-Move ax remove tmp h = cc
    temp_of-Move ax close tmp h = cc
    temp_of-Move ax close_failed tmp h = cc
    temp_of-Move ax (lock free) tmp h = cc
    temp_of-Move ax assign tmp h = cc
    temp_of-Move ax unlock tmp h = cc

    pub Holds-Move :
        {m m' : Shared fs F} {pc pc' : Pc}
        → IsFileSystem fs
        → Move fs parse dir job m pc m' pc'
        → Holds m pc
        → Holds m' pc'
    Holds-Move ax (begin good named) h tmp e = cc
    Holds-Move ax (parse_fails bad) h tmp e = cc
    Holds-Move ax (name_missing good unnamed) h tmp e = cc
    Holds-Move ax (mkdir done) h tmp e = cc
    Holds-Move ax (mkdir_fails f) h tmp e = cc
    Holds-Move {m} ax (create {tmp = made} done) h tmp e =
        let same : made ≡ tmp = cc in
        rw (← same) ((m.files, done), (ax.create_temp_new dir _ m.files made done).1)
    Holds-Move ax (create_fails f) h tmp e = cc
    Holds-Move {m} ax (write {tmp = t} done) h tmp e =
        let same : t ≡ tmp = cc in
        let (named, empty) = h t refl in
        rw (← same) (named, ax.write_content t job.content m.files empty done)
    Holds-Move {m} ax (write_fails {tmp = t} f) h tmp e =
        let same : t ≡ tmp = cc in
        let (named, empty) = h t refl in
        rw (← same)
          (named, ax.write_stays t job.content m.files (λ gone. absurd (cc (sym empty ∙ gone))))
    Holds-Move {m} ax (sync {tmp = t} done) h tmp e =
        let same : t ≡ tmp = cc in
        let (named, full) = h t refl in rw (← same) (named, ax.sync_same t m.files t ∙ full)
    Holds-Move {m} ax (sync_fails {tmp = t} f) h tmp e =
        let same : t ≡ tmp = cc in
        let (named, full) = h t refl in
        rw (← same) (named, λ gone. absurd (cc (sym full ∙ sym (ax.sync_same t m.files t) ∙ gone)))
    Holds-Move ax (rename done) h tmp e = cc
    Holds-Move {m} ax (rename_fails {tmp = t} {e = x} f) h tmp e =
        let same : t ≡ tmp = cc in
        let (named, full) = h t refl in
        rw (← same) (
          named,
          λ gone.
              absurd
                (cc (sym full ∙ sym (ax.rename_same t (final_path dir job) m.files x f t) ∙ gone)),
        )
    Holds-Move ax remove h tmp e = cc
    Holds-Move ax close h tmp e = cc
    Holds-Move ax close_failed h tmp e = cc
    Holds-Move ax (lock free) h tmp e = cc
    Holds-Move ax assign h tmp e = cc
    Holds-Move ax unlock h tmp e = cc
