-- ===== src/Tests/SystemRuns.antt =====
-- Goroutines and the log at concrete values.
use native.Mathlib.Decide.{ℕ_discrete}
use leasewebassignment.Base.{
  ℕ, Bool, true, false, keep, ◌↔◌, List, [], ◌∷◌, some, ◌≡◌, ◌≢◌, refl, arith, map, Result,
}
use leasewebassignment.Text.{Bytes, codes, same}
use leasewebassignment.Text.Case.{to_lower, lower_byte}
use leasewebassignment.Text.Space.{trim_space}
use leasewebassignment.Errors.{Error}
use leasewebassignment.Model.{Server, ServerFilter}
use leasewebassignment.Store.{IndexedServer, new_indexed_server, prepare_filter}
use leasewebassignment.Store.Catalog.{no_filter}
use leasewebassignment.Service.{ServiceState, get_servers, upload_server_data, load_server_data}
use leasewebassignment.Concurrency.{
  Pc, idle, replaced, unlock, loop, keep_if_matches, list_called, list_locked, replace_called,
  listing, System, Reaches, new, stepped, picked, call_list, rlock, start_loop, call_replace, lock,
  assign, replace_locked,
}
use leasewebassignment.Concurrency.Threads.{move_thread}
use leasewebassignment.Concurrency.Exclusion.{is_reading, is_writing, Reaches-exclusive}
use leasewebassignment.Concurrency.Catalog.{Reaches-Matches}
use leasewebassignment.Store.Matching.{Matches}
use leasewebassignment.Logging.{warn_level, info_level, parse_level}
use leasewebassignment.Logging.Service.{Transparent, main_service, main_service-Transparent}
use leasewebassignment.Tests.Parts.{plain_unicode, empty_disk, dell, parse_one}
use leasewebassignment.Tests.Instance.{disk, two_servers}

-- The first goroutine has called `ListServers`, the second holds the mutex to write.
abbrev index : List (IndexedServer ℕ)
index = map new_indexed_server (dell ∷ [])

abbrev writing : System ℕ
writing = record {
  shared = record { servers = []; readers = 0; writers = 1 };
  places =
      move_thread
        (move_thread (move_thread (λ i. idle) 0 (list_called no_filter)) 1 (replace_called index)) 1
        (replace_locked index);
}

writing_reached : Reaches 2 writing
unfolding ℕ_discrete
writing_reached =
    stepped
      (stepped (stepped new (picked 0 (omega arith) (call_list no_filter)))
        (picked 1 (omega arith) (call_replace (dell ∷ []))))
      (picked 1 (omega arith) (lock refl refl))

abbrev second : ℕ
second = 1

Reaches-exclusive_example :
    (is_reading (writing.places 0) ≡ false) × (second ≢ 0 → is_writing (writing.places 0) ≡ false)
unfolding ℕ_discrete
Reaches-exclusive_example =
    Reaches-exclusive 2 writing_reached second 0 (omega arith) (omega arith) refl

-- A goroutine at the end of its loop over one server, after another has replaced the catalog.
abbrev one_result : List (Server ℕ)
one_result = keep_if_matches (prepare_filter no_filter) (new_indexed_server dell) []

abbrev after_replace : ℕ → Pc ℕ
after_replace =
    move_thread
      (move_thread
        (move_thread (move_thread (λ i. idle) 1 (replace_called index)) 1 (replace_locked index)) 1
        replaced)
      1 idle

abbrev reading : System ℕ
reading = record {
  shared = record { servers = index; readers = 1; writers = 0 };
  places =
      move_thread
        (move_thread
          (move_thread (move_thread after_replace 0 (list_called no_filter)) 0
            (list_locked no_filter))
          0 (listing no_filter index []))
        0 (listing no_filter [] one_result);
}

abbrev replaced_once : System ℕ
replaced_once = record {
  shared = record { servers = index; readers = 0; writers = 0 };
  places = after_replace;
}

replaced_once_reached : Reaches 2 replaced_once
unfolding ℕ_discrete
replaced_once_reached =
    stepped
      (stepped
        (stepped (stepped new (picked 1 (omega arith) (call_replace (dell ∷ []))))
          (picked 1 (omega arith) (lock refl refl)))
        (picked 1 (omega arith) assign))
      (picked 1 (omega arith) unlock)

reading_reached : Reaches 2 reading
unfolding ℕ_discrete
reading_reached =
    stepped
      (stepped
        (stepped (stepped replaced_once_reached (picked 0 (omega arith) (call_list no_filter)))
          (picked 0 (omega arith) (rlock refl)))
        (picked 0 (omega arith) start_loop))
      (picked 0 (omega arith) loop)

Reaches-Matches_example :
    (test : Server ℕ → Bool) × ((x : Server ℕ) → (test x ≡ true) ↔ Matches x no_filter)
    × (one_result ≡ keep test (map (λ idx. idx.server) index))
unfolding ℕ_discrete
Reaches-Matches_example = Reaches-Matches 2 reading_reached 0 (omega arith) refl

warn_read : parse_level (codes " Warning\n") ≡ warn_level
unfolding parse_level same to_lower trim_space lower_byte
warn_read = refl

unknown_read : parse_level (codes "verbose") ≡ info_level
unfolding parse_level same to_lower trim_space lower_byte
unknown_read = refl

abbrev held : ServiceState disk ℕ
held = record { repo = some two_servers; files = empty_disk }

main_service-Transparent_example :
    ((filename : Bytes) (read : Result Error Bytes)
      → Transparent disk
          (codes "UploadServerData")
          (codes "filename")
          filename
          []
          (upload_server_data disk parse_one filename read held)
          ((main_service disk parse_one).upload_of filename read (held, [])))
    × ((path : Bytes)
        → Transparent disk
            (codes "LoadServerData")
            (codes "path")
            path
            []
            (load_server_data disk parse_one path held)
            ((main_service disk parse_one).load_of path (held, [])))
    × ((filter : ServerFilter)
        → (main_service disk parse_one).get_servers_of (held, []) filter
          ≡ get_servers disk held filter)
main_service-Transparent_example = main_service-Transparent disk parse_one held []
