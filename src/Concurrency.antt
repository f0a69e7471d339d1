-- ===== src/Concurrency.antt =====
-- The repository under its `sync.RWMutex`: `ListServers` and `ReplaceServers` in any number of
-- goroutines, interleaved in any order, with each access to shared memory a step of its own. A lock is
-- free again when the deferred call has run, which is the step that returns.
-- (internal/store/memory_repo.go)
pub mod Threads
pub mod Exclusion
pub mod Snapshot
pub mod Catalog
pub mod Uploads
use leasewebassignment.Base.{
  ℕ, ◌+◌, ◌-◌, ◌<◌, Bool, true, false, List, [], ◌∷◌, ◌++◌, map, ◌≡◌, if◌then◌else◌,
}
use leasewebassignment.Text.{Bytes}
use leasewebassignment.Text.Case.{Unicode}
use leasewebassignment.Model.{Server, ServerFilter}
use leasewebassignment.Store.{
  IndexedServer, PreparedFilter, MemoryRepository, new_memory_repository, new_indexed_server,
  prepare_filter, matches_filter,
}
use leasewebassignment.Concurrency.Threads.{move_thread}

-- What the goroutines share: `servers` and the mutex, as the number of those that hold it to read and
-- of those that hold it to write. The directory does not change.
pub record Shared {ℓ} (F : Type ℓ) : Type ℓ where
  pub servers : List (IndexedServer F)
  pub readers : ℕ
  pub writers : ℕ

-- Where a goroutine is.
pub data Pc {ℓ} (F : Type ℓ) : Type ℓ where
  idle : Pc F
  -- in `ListServers`: before `RLock`, behind it, in the loop with the servers to come and the result
  -- so far, and returned
  list_called : ServerFilter → Pc F
  list_locked : ServerFilter → Pc F
  listing : ServerFilter → List (IndexedServer F) → List (Server F) → Pc F
  listed : ServerFilter → List (Server F) → Pc F
  -- in `ReplaceServers`: with the new index before `Lock`, behind it, and behind the assignment
  replace_called : List (IndexedServer F) → Pc F
  replace_locked : List (IndexedServer F) → Pc F
  replaced : Pc F

-- the body of the loop
unfoldable pub keep_if_matches {ℓ} :
    {F : Type ℓ} ⦃U : Unicode⦄
    → PreparedFilter
    → IndexedServer F
    → List (Server F)
    → List (Server F)
keep_if_matches pf idx result =
    if matches_filter idx pf then result ++ (idx.server ∷ []) else result

-- A step of one goroutine: `RLock` waits for a writer, `Lock` for everyone.
pub data Move {ℓ} {F : Type ℓ} ⦃U : Unicode⦄ : Shared F → Pc F → Shared F → Pc F → Type ℓ where
  call_list : {m : Shared F} (filter : ServerFilter) → Move m idle m (list_called filter)
  rlock :
      {m : Shared F} {filter : ServerFilter}
      → m.writers ≡ 0
      → Move m (list_called filter) (record m { readers = m.readers + 1 }) (list_locked filter)
  start_loop :
      {m : Shared F} {filter : ServerFilter}
      → Move m (list_locked filter) m (listing filter m.servers [])
  loop :
      {m : Shared F} {filter : ServerFilter} {idx : IndexedServer F} {rest : List (IndexedServer F)}
      {result : List (Server F)}
      → Move m
          (listing filter (idx ∷ rest) result)
          m
          (listing filter rest (keep_if_matches (prepare_filter filter) idx result))
  runlock :
      {m : Shared F} {filter : ServerFilter} {result : List (Server F)}
      → Move m
          (listing filter [] result)
          (record m { readers = m.readers - 1 })
          (listed filter result)
  call_replace :
      {m : Shared F} (servers : List (Server F))
      → Move m idle m (replace_called (map new_indexed_server servers))
  lock :
      {m : Shared F} {indexed : List (IndexedServer F)}
      → m.readers ≡ 0
      → m.writers ≡ 0
      → Move m (replace_called indexed) (record m { writers = 1 }) (replace_locked indexed)
  assign :
      {m : Shared F} {indexed : List (IndexedServer F)}
      → Move m (replace_locked indexed) (record m { servers = indexed }) replaced
  unlock : {m : Shared F} → Move m replaced (record m { writers = m.writers - 1 }) idle
  collect :
      {m : Shared F} {filter : ServerFilter} {result : List (Server F)}
      → Move m (listed filter result) m idle

-- An index from the number of goroutines on names none: it is never picked, and stays idle.
pub record System {ℓ} (F : Type ℓ) : Type ℓ where
  pub shared : Shared F
  pub places : ℕ → Pc F

-- a new repository, with nobody at work on it
abbrev pub initial {ℓ} : {F : Type ℓ} → System F
initial = record { shared = record { servers = []; readers = 0; writers = 0 }; places = λ i. idle }

module _ {ℓ} {F : Type ℓ} ⦃U : Unicode⦄ (n : ℕ) where
  pub data Step (s : System F) : System F → Type ℓ where
    picked :
        (i : ℕ) {m : Shared F} {pc : Pc F}
        → i < n
        → Move s.shared (s.places i) m pc
        → Step s (record { shared = m; places = move_thread s.places i pc })

  -- The states that `n` goroutines can bring a new repository to.
  pub data Reaches : System F → Type ℓ where
    new : Reaches initial
    stepped : {s t : System F} → Reaches s → Step s t → Reaches t
