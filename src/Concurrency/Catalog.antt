-- ===== src/Concurrency/Catalog.antt =====
-- What queries see of the catalog while others replace it. (internal/store/memory_repo.go,
-- internal/store/store.go)
use native.Mathlib.Decide.{ℕ_discrete}
use leasewebassignment.Base.{
  ℕ, ◌<◌, Bool, true, List, [], map, keep, ◌≡◌, sym, ◌∙◌, ◌↔◌, ok-injective, All,
}
use leasewebassignment.Text.Case.{Unicode}
use leasewebassignment.Model.{Server, ServerFilter}
use leasewebassignment.Store.{IndexedServer, MemoryRepository, new_indexed_server}
use leasewebassignment.Store.Catalog.{indexed-map, list_servers-catalog}
use leasewebassignment.Store.Matching.{Matches}
use leasewebassignment.Concurrency.{
  Shared, Pc, listing, replace_called, replace_locked, Move, call_list, rlock, start_loop, loop,
  runlock, call_replace, lock, assign, unlock, collect, System, Step, picked, Reaches, new, stepped,
}
use leasewebassignment.Concurrency.Threads.{move_thread_here, move_thread_there}
use leasewebassignment.Concurrency.Snapshot.{Reaches-list_servers}

module _ {ℓ} {F : Type ℓ} ⦃U : Unicode⦄ where
  abbrev AllIndexed : List (IndexedServer F) → Type ℓ
  AllIndexed indexed = All (λ idx. idx ≡ new_indexed_server idx.server) indexed

  -- What a goroutine is about to install is indexed.
  Carries : Pc F → Type ℓ
  Carries (replace_called indexed) = AllIndexed indexed
  Carries (replace_locked indexed) = AllIndexed indexed
  Carries _ = Unit

  AllIndexed-Move :
      {m m' : Shared F} {p p' : Pc F}
      → Move m p m' p'
      → AllIndexed m.servers
      → Carries p
      → AllIndexed m'.servers × Carries p'
  unfolding Carries
  AllIndexed-Move (call_list filter) h k = (h, tt)
  AllIndexed-Move (rlock free) h k = (h, tt)
  AllIndexed-Move start_loop h k = (h, tt)
  AllIndexed-Move loop h k = (h, tt)
  AllIndexed-Move runlock h k = (h, tt)
  AllIndexed-Move (call_replace servers) h k = (h, indexed-map servers)
  AllIndexed-Move (lock free free') h k = (h, k)
  AllIndexed-Move assign h k = (k, tt)
  AllIndexed-Move unlock h k = (h, tt)
  AllIndexed-Move collect h k = (h, tt)

  Indexed : System F → Type ℓ
  Indexed s = AllIndexed s.shared.servers × ((j : ℕ) → Carries (s.places j))

  Indexed-Step : (n : ℕ) {s t : System F} → Step n s t → Indexed s → Indexed t
  unfolding Indexed
  Indexed-Step n {s} (picked i {m} {pc} below move) (servers, others) =
      let (after, here) = AllIndexed-Move move servers (others i) in
      (
        after,
        λ j. elim (ℕ_discrete i j) [
          | yes same ↦ rw (move_thread_here s.places i pc same) here
          | no other ↦ rw (move_thread_there s.places i pc other) (others j)
        ],
      )

  Reaches-Indexed : (n : ℕ) {s : System F} → Reaches n s → Indexed s
  unfolding Indexed Carries
  Reaches-Indexed n new = (tt, λ j. tt)
  Reaches-Indexed n (stepped h step) = Indexed-Step n step (Reaches-Indexed n h)

  -- When a goroutine leaves the loop of `ListServers`, and is about to give the mutex back, it has
  -- exactly the servers that match its filter among those that are the catalog at that moment, in
  -- their order, whatever the others have done since it began.
  pub Reaches-Matches :
      (n : ℕ) {s : System F}
      → Reaches n s
      → (i : ℕ) → i < n
      → {filter : ServerFilter} {result : List (Server F)} → s.places i ≡ listing filter [] result
      → (test : Server F → Bool) × ((x : Server F) → (test x ≡ true) ↔ Matches x filter)
        × (result ≡ keep test (map (λ idx. idx.server) s.shared.servers))
  unfolding Indexed
  Reaches-Matches n {s} h i below {filter} place =
      let repo : MemoryRepository F = record { servers = s.shared.servers; upload_dir = [] } in
      let (test, exact, listed_is) = list_servers-catalog repo filter (Reaches-Indexed n h).0 in
      (test, exact, ok-injective (sym (Reaches-list_servers n h i below place []) ∙ listed_is))
