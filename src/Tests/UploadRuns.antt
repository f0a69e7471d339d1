-- ===== src/Tests/UploadRuns.antt =====
-- Uploads that run at once, at concrete values.
use native.Mathlib.Decide.{ℕ_discrete}
use leasewebassignment.Base.{
  sym, ok-injective, ok, some, ◌<◌, ◌≤◌, map, List, Result, if◌then◌else◌, ℕ, zero, suc, false, [],
  ◌∷◌, ◌++◌, ◌≡◌, refl, arith,
}
use leasewebassignment.Errors.{Error}
use leasewebassignment.Model.{Server}
use leasewebassignment.Store.{new_indexed_server}
use leasewebassignment.Text.{Bytes, codes, same, join}
use leasewebassignment.Store.Path.{base, join_path, clean}
use leasewebassignment.Concurrency.Threads.{move_thread}
use leasewebassignment.Concurrency.Uploads.{
  Job, Pc, waiting, parsed, dir_made, created, written, synced, renamed, Shared, System, final_path,
  temp_pattern, close, lock, assign, unlock, stored, begin, mkdir, create, write, sync, rename,
  Reaches, new, stepped, picked,
}
use leasewebassignment.Concurrency.Uploads.Holding.{IsTemp}
use leasewebassignment.Concurrency.Uploads.Invariant.{IsApart, IsWhole, IsStocked}
use leasewebassignment.Concurrency.Uploads.Progress.{HasServers}
use leasewebassignment.Concurrency.Uploads.Ending.{steps_of, Runs, ComesToEnd, Runs-ComesToEnd}
use leasewebassignment.Concurrency.Uploads.Whole.{Reaches-IsWhole}
use leasewebassignment.Tests.Parts.{
  plain_unicode, empty_disk, dell, supermicro, parse_one, memory_disk_lawful, create_name,
}
use leasewebassignment.Tests.Instance.{disk}

abbrev dir : Bytes
dir = codes "up"

-- Two uploads of the same servers, under two names.
abbrev jobs : ℕ → Job ℕ
jobs zero = record { filename = codes "a.csv"; content = codes "x"; servers = dell ∷ [] }
jobs (suc i) = record { filename = codes "b.csv"; content = codes "x"; servers = dell ∷ [] }

paths : final_path dir (jobs 0) ≡ codes "up/a.csv"
unfolding base join_path clean same join
paths = refl

apart : (m : Shared disk ℕ) → IsApart disk parse_one dir 2 jobs m
unfolding base join_path clean same join
apart m zero zero (s, e) = absurd (cc (create_name (codes "up/a.csv-*.tmp") s (codes "up/a.csv") e))
apart m zero (suc j) (s, e) =
    absurd (cc (create_name (codes "up/a.csv-*.tmp") s (codes "up/b.csv") e))
apart m (suc i) zero (s, e) =
    absurd (cc (create_name (codes "up/b.csv-*.tmp") s (codes "up/a.csv") e))
apart m (suc i) (suc j) (s, e) =
    absurd (cc (create_name (codes "up/b.csv-*.tmp") s (codes "up/b.csv") e))

-- The first upload is renamed to its place, and the second has an empty temporary file.
abbrev tmp : Bytes
tmp = dir ++ codes "/" ++ temp_pattern (jobs 0)

abbrev other_tmp : Bytes
other_tmp = dir ++ codes "/" ++ temp_pattern (jobs 1)

abbrev before : Shared disk ℕ
before = record { files = empty_disk; servers = []; locked = false }

abbrev place : (ℕ → Pc) → ℕ → Pc → ℕ → Pc
place places i pc = move_thread places i pc

abbrev places : ℕ → Pc
places =
    place
      (place
        (place
          (place
            (place
              (place (place (place (place (λ i. waiting) 0 parsed) 0 dir_made) 0 (created tmp)) 0
                (written tmp))
              0 (synced tmp))
            0 (renamed tmp))
          1 parsed)
        1 dir_made)
      1 (created other_tmp)

abbrev files : disk.State
files =
    (disk.create_temp dir (temp_pattern (jobs 1))
      (disk.rename tmp (final_path dir (jobs 0))
        (disk.write tmp (codes "x")
          (disk.create_temp dir (temp_pattern (jobs 0)) empty_disk).0).0).0).0

abbrev midway : System disk ℕ
midway = record { shared = record { files = files; servers = []; locked = false }; places = places }

midway_reached : Reaches disk parse_one dir 2 jobs before midway
unfolding ℕ_discrete base join_path clean same join
midway_reached =
    stepped
      (stepped
        (stepped
          (stepped
            (stepped
              (stepped
                (stepped
                  (stepped (stepped new (picked 0 (omega arith) (begin refl refl)))
                    (picked 0 (omega arith) (mkdir refl)))
                  (picked 0 (omega arith) (create refl)))
                (picked 0 (omega arith) (write refl)))
              (picked 0 (omega arith) (sync refl)))
            (picked 0 (omega arith) (rename refl)))
          (picked 1 (omega arith) (begin refl refl)))
        (picked 1 (omega arith) (mkdir refl)))
      (picked 1 (omega arith) (create refl))

no_temp : (i : ℕ) → IsTemp disk parse_one dir (jobs i) (final_path dir (jobs 0)) → ⊥
no_temp i = apart before i 0

Reaches-IsWhole_example :
    IsWhole disk parse_one dir 2 jobs before midway.shared (final_path dir (jobs 0))
    × IsStocked disk parse_one dir 2 jobs before midway.shared
Reaches-IsWhole_example =
    Reaches-IsWhole disk parse_one dir 2 jobs before (memory_disk_lawful false) (apart before)
      midway_reached (final_path dir (jobs 0)) no_temp

jobs-HasServers : (i : ℕ) → i < 2 → HasServers disk parse_one dir (jobs i)
unfolding same
jobs-HasServers zero below servers parsed_them = sym (ok-injective parsed_them)
jobs-HasServers (suc i) below servers parsed_them = sym (ok-injective parsed_them)

Runs-ComesToEnd_example :
    ((trace : List ℕ) (t : System disk ℕ)
      → Runs disk parse_one dir 2 jobs trace midway t
      → (i : ℕ) → steps_of i trace ≤ 11)
    × ComesToEnd disk parse_one dir 2 jobs jobs-HasServers midway
Runs-ComesToEnd_example =
    Runs-ComesToEnd disk parse_one dir 2 jobs jobs-HasServers before refl midway_reached

-- Two uploads under one name at once: the file is that of the second, the catalog that of the first.
abbrev parse_two : Bytes → Result Error (List (Server ℕ))
parse_two content = if same content (codes "y") then ok (supermicro ∷ []) else parse_one content

abbrev rivals : ℕ → Job ℕ
rivals zero = record { filename = codes "a.csv"; content = codes "x"; servers = dell ∷ [] }
rivals (suc i) = record { filename = codes "a.csv"; content = codes "y"; servers = supermicro ∷ [] }

crossed :
    (s : System disk ℕ) × Reaches disk parse_two dir 2 rivals before s
    × (s.places 0 ≡ stored)
    × (s.places 1 ≡ stored)
    × (disk.content s.shared.files (codes "up/a.csv") ≡ some (codes "y"))
    × (s.shared.servers ≡ map new_indexed_server (dell ∷ []))
unfolding ℕ_discrete base join_path clean same join
crossed = (
  _,
  stepped
      (stepped
        (stepped
          (stepped
            (stepped
              (stepped
                (stepped
                  (stepped
                    (stepped
                      (stepped
                        (stepped
                          (stepped
                            (stepped
                              (stepped
                                (stepped
                                  (stepped
                                    (stepped
                                      (stepped
                                        (stepped
                                          (stepped new (picked 0 (omega arith) (begin refl refl)))
                                          (picked 0 (omega arith) (mkdir refl)))
                                        (picked 0 (omega arith) (create refl)))
                                      (picked 0 (omega arith) (write refl)))
                                    (picked 0 (omega arith) (sync refl)))
                                  (picked 0 (omega arith) (rename refl)))
                                (picked 0 (omega arith) close))
                              (picked 1 (omega arith) (begin refl refl)))
                            (picked 1 (omega arith) (mkdir refl)))
                          (picked 1 (omega arith) (create refl)))
                        (picked 1 (omega arith) (write refl)))
                      (picked 1 (omega arith) (sync refl)))
                    (picked 1 (omega arith) (rename refl)))
                  (picked 1 (omega arith) close))
                (picked 1 (omega arith) (lock refl)))
              (picked 1 (omega arith) assign))
            (picked 1 (omega arith) unlock))
          (picked 0 (omega arith) (lock refl)))
        (picked 0 (omega arith) assign))
      (picked 0 (omega arith) unlock),
  refl,
  refl,
  refl,
  refl,
)
