-- ===== src/Concurrency/Uploads.antt =====
-- Uploads that run at once: `UploadServerData` in any number of goroutines, with each operation on the
-- files and on the mutex a step of its own. No query runs beside them here.
-- (internal/service/service.go, internal/store/memory_repo.go)
pub mod Holding
pub mod Effects
pub mod Invariant
pub mod Whole
pub mod Guard
pub mod Progress
pub mod Ending
use leasewebassignment.Base.{
  ℕ, ◌<◌, Bool, true, false, List, [], ◌∷◌, ◌++◌, map, Option, none, some, ◌≡◌, Result, ok, err,
}
use leasewebassignment.Text.{Bytes, codes, is_empty}
use leasewebassignment.Text.Case.{Unicode}
use leasewebassignment.Errors.{Error}
use leasewebassignment.Model.{Server}
use leasewebassignment.Store.{IndexedServer, new_indexed_server}
use leasewebassignment.Store.Files.{FileSystem}
use leasewebassignment.Store.Path.{base, join_path}
use leasewebassignment.Service.{Parser}
use leasewebassignment.Concurrency.Threads.{move_thread}

-- What a goroutine has to upload: the name and the bytes, and the servers that they hold.
pub record Job {ℓ} (F : Type ℓ) : Type ℓ where
  pub filename : Bytes
  pub content : Bytes
  pub servers : List (Server F)

-- Where a goroutine is in its upload, with the name of its temporary file.
pub data Pc : Type 0 where
  waiting : Pc
  -- behind the parser, and behind `os.MkdirAll`
  parsed : Pc
  dir_made : Pc
  -- behind `os.CreateTemp`, `Write` and `Sync`
  created : Bytes → Pc
  written : Bytes → Pc
  synced : Bytes → Pc
  -- before `os.Remove`
  discarding : Bytes → Pc
  -- before the deferred `Close`: to go on, or to fail
  renamed : Bytes → Pc
  removed : Bytes → Pc
  -- behind `SaveUpload`
  saved : Pc
  -- in `ReplaceServers`, behind `Lock`, and behind the assignment
  replacing : Pc
  replaced : Pc
  stored : Pc
  failed : Pc

pub record Shared {ℓ} (fs : FileSystem) (F : Type ℓ) : Type ℓ where
  pub files : fs.State
  pub servers : List (IndexedServer F)
  -- whether the mutex is locked
  pub locked : Bool

pub record System {ℓ} (fs : FileSystem) (F : Type ℓ) : Type ℓ where
  pub shared : Shared fs F
  pub places : ℕ → Pc

abbrev pub final_path {ℓ} : {F : Type ℓ} → Bytes → Job F → Bytes
final_path dir job = join_path (dir ∷ base job.filename ∷ [])

abbrev pub temp_pattern {ℓ} : {F : Type ℓ} → Job F → Bytes
temp_pattern job = base job.filename ++ codes "-*.tmp"

module _ {ℓ} (fs : FileSystem) {F : Type ℓ} ⦃U : Unicode⦄ (parse : Parser F) (dir : Bytes) where
  -- A step of the goroutine with a job.
  pub data Move (job : Job F) (m : Shared fs F) : Pc → Shared fs F → Pc → Type ℓ where
    begin :
        parse job.content ≡ ok job.servers
        → is_empty job.filename ≡ false
        → Move job m waiting m parsed
    parse_fails : {e : Error} → parse job.content ≡ err e → Move job m waiting m failed
    name_missing :
        parse job.content ≡ ok job.servers
        → is_empty job.filename ≡ true
        → Move job m waiting m failed
    mkdir :
        (fs.mkdir_all dir m.files).1 ≡ none
        → Move job m parsed (record m { files = (fs.mkdir_all dir m.files).0 }) dir_made
    mkdir_fails :
        {e : Error}
        → (fs.mkdir_all dir m.files).1 ≡ some e
        → Move job m parsed (record m { files = (fs.mkdir_all dir m.files).0 }) failed
    create :
        {tmp : Bytes}
        → (fs.create_temp dir (temp_pattern job) m.files).1 ≡ ok tmp
        → Move job m dir_made
            (record m { files = (fs.create_temp dir (temp_pattern job) m.files).0 })
            (created tmp)
    create_fails :
        {e : Error}
        → (fs.create_temp dir (temp_pattern job) m.files).1 ≡ err e
        → Move job m dir_made
            (record m { files = (fs.create_temp dir (temp_pattern job) m.files).0 })
            failed
    write :
        {tmp : Bytes}
        → (fs.write tmp job.content m.files).1 ≡ none
        → Move job m
            (created tmp)
            (record m { files = (fs.write tmp job.content m.files).0 })
            (written tmp)
    write_fails :
        {tmp : Bytes} {e : Error}
        → (fs.write tmp job.content m.files).1 ≡ some e
        → Move job m
            (created tmp)
            (record m { files = (fs.write tmp job.content m.files).0 })
            (discarding tmp)
    sync :
        {tmp : Bytes}
        → (fs.sync tmp m.files).1 ≡ none
        → Move job m (written tmp) (record m { files = (fs.sync tmp m.files).0 }) (synced tmp)
    sync_fails :
        {tmp : Bytes} {e : Error}
        → (fs.sync tmp m.files).1 ≡ some e
        → Move job m (written tmp) (record m { files = (fs.sync tmp m.files).0 }) (discarding tmp)
    rename :
        {tmp : Bytes}
        → (fs.rename tmp (final_path dir job) m.files).1 ≡ none
        → Move job m
            (synced tmp)
            (record m { files = (fs.rename tmp (final_path dir job) m.files).0 })
            (renamed tmp)
    rename_fails :
        {tmp : Bytes} {e : Error}
        → (fs.rename tmp (final_path dir job) m.files).1 ≡ some e
        → Move job m
            (synced tmp)
            (record m { files = (fs.rename tmp (final_path dir job) m.files).0 })
            (discarding tmp)
    remove :
        {tmp : Bytes}
        → Move job m (discarding tmp) (record m { files = (fs.remove tmp m.files).0 }) (removed tmp)
    close :
        {tmp : Bytes} → Move job m (renamed tmp) (record m { files = fs.close tmp m.files }) saved
    close_failed :
        {tmp : Bytes} → Move job m (removed tmp) (record m { files = fs.close tmp m.files }) failed
    lock : m.locked ≡ false → Move job m saved (record m { locked = true }) replacing
    assign :
        Move job m replacing (record m { servers = map new_indexed_server job.servers }) replaced
    unlock : Move job m replaced (record m { locked = false }) stored

  -- The first `n` goroutines, each with its job, from some files and some catalog on.
  module _ (n : ℕ) (jobs : ℕ → Job F) where
    pub data Step (s : System fs F) : System fs F → Type ℓ where
      picked :
          (i : ℕ) {m : Shared fs F} {pc : Pc}
          → i < n
          → Move (jobs i) s.shared (s.places i) m pc
          → Step s (record { shared = m; places = move_thread s.places i pc })

    pub data Reaches (m₀ : Shared fs F) : System fs F → Type ℓ where
      new : Reaches m₀ (record { shared = m₀; places = λ i. waiting })
      stepped : {s t : System fs F} → Reaches m₀ s → Step s t → Reaches m₀ t
