-- ===== src/Concurrency/Snapshot.antt =====
-- What `ListServers` returns while others replace the catalog. (internal/store/memory_repo.go)
use native.Mathlib.Decide.{ℕ_discrete}
use mathlib.Core.List.{append_assoc, append-nil}
use leasewebassignment.Base.{
  ℕ, ◌<◌, true, false, List, [], ◌∷◌, ◌++◌, map, keep, some, ◌≡◌, refl, sym, ap, subst, ◌∙◌, ◌⊎◌,
  inl, inr, Bool-cases, ok,
}
use leasewebassignment.Text.{Bytes}
use leasewebassignment.Text.Case.{Unicode}
use leasewebassignment.Model.{Server, ServerFilter}
use leasewebassignment.Store.{IndexedServer, prepare_filter, matches_filter, list_servers}
use leasewebassignment.Concurrency.{
  Shared, Pc, idle, list_called, list_locked, listing, listed, replace_called, replace_locked,
  replaced, keep_if_matches, Move, call_list, rlock, start_loop, loop, runlock, call_replace, lock,
  assign, unlock, collect, System, Step, picked, Reaches, new, stepped,
}
use leasewebassignment.Concurrency.Threads.{move_thread_here, move_thread_there}
use leasewebassignment.Concurrency.Exclusion.{is_reading, is_writing, Reaches-exclusive}

module _ {ℓ} {F : Type ℓ} ⦃U : Unicode⦄ where
  -- the servers of an index that a filter lets through
  abbrev selected : ServerFilter → List (IndexedServer F) → List (Server F)
  selected filter indexed =
      map (λ idx. idx.server) (keep (λ idx. matches_filter idx (prepare_filter filter)) indexed)

  -- A loop has what it has seen of the servers that are there now.
  Follows : List (IndexedServer F) → Pc F → Type ℓ
  Follows servers (listing filter rest result) =
      result ++ selected filter rest ≡ selected filter servers
  Follows servers _ = Unit

  keep_if_matches-selected :
      (filter : ServerFilter) (idx : IndexedServer F) (rest : List (IndexedServer F))
      (result : List (Server F))
      → keep_if_matches (prepare_filter filter) idx result ++ selected filter rest
        ≡ result ++ selected filter (idx ∷ rest)
  unfolding keep_if_matches
  keep_if_matches-selected filter idx rest result =
      elim (Bool-cases (matches_filter idx (prepare_filter filter))) [
        | inl kept ↦
            rw (kept, keep_if_matches)
              (append_assoc result (idx.server ∷ []) (selected filter rest))
        | inr left_out ↦ rw (left_out, keep_if_matches)
      ]

  Follows-Move :
      {m m' : Shared F} {p p' : Pc F} → Move m p m' p' → Follows m.servers p → Follows m'.servers p'
  unfolding Follows
  Follows-Move (call_list filter) h = tt
  Follows-Move (rlock free) h = tt
  Follows-Move start_loop h = refl
  Follows-Move (loop {filter} {idx} {rest} {result}) h =
      keep_if_matches-selected filter idx rest result ∙ h
  Follows-Move runlock h = tt
  Follows-Move (call_replace servers) h = tt
  Follows-Move (lock free free') h = tt
  Follows-Move assign h = tt
  Follows-Move unlock h = tt
  Follows-Move collect h = tt

  -- Only a writer changes the servers.
  servers-Move :
      {m m' : Shared F} {p p' : Pc F}
      → Move m p m' p'
      → (m'.servers ≡ m.servers) ⊎ (is_writing p ≡ true)
  servers-Move (call_list filter) = inl refl
  servers-Move (rlock free) = inl refl
  servers-Move start_loop = inl refl
  servers-Move loop = inl refl
  servers-Move runlock = inl refl
  servers-Move (call_replace servers) = inl refl
  servers-Move (lock free free') = inl refl
  servers-Move assign = inr refl
  servers-Move unlock = inl refl
  servers-Move collect = inl refl

  not_reading-Follows :
      (servers : List (IndexedServer F)) (p : Pc F) → is_reading p ≡ false → Follows servers p
  unfolding Follows
  not_reading-Follows servers (listing filter rest result) h = cc
  not_reading-Follows servers idle h = tt
  not_reading-Follows servers (list_called filter) h = tt
  not_reading-Follows servers (list_locked filter) h = tt
  not_reading-Follows servers (listed filter result) h = tt
  not_reading-Follows servers (replace_called indexed) h = tt
  not_reading-Follows servers (replace_locked indexed) h = tt
  not_reading-Follows servers replaced h = tt

  AllFollow : ℕ → System F → Type ℓ
  AllFollow n s = (j : ℕ) → j < n → Follows s.shared.servers (s.places j)

  AllFollow-Step :
      (n : ℕ) {s t : System F} → Reaches n s → Step n s t → AllFollow n s → AllFollow n t
  unfolding AllFollow
  AllFollow-Step n {s} reached (picked i {m} {pc} below move) h j below' = elim (ℕ_discrete i j) [
    | yes same ↦ rw (move_thread_here s.places i pc same) (Follows-Move move (h i below))
    | no other ↦ elim (servers-Move move) [
      | inl kept ↦ rw (move_thread_there s.places i pc other, kept) (h j below')
      | inr writes ↦ rw (move_thread_there s.places i pc other) (
          not_reading-Follows m.servers (s.places j)
            (Reaches-exclusive n reached i j below below' writes).0)
    ]
  ]

  Reaches-AllFollow : (n : ℕ) {s : System F} → Reaches n s → AllFollow n s
  unfolding AllFollow Follows
  Reaches-AllFollow n new = λ j below. tt
  Reaches-AllFollow n (stepped h step) = AllFollow-Step n h step (Reaches-AllFollow n h)

  -- When a goroutine leaves the loop of `ListServers`, and is about to give the mutex back, it has
  -- what `ListServers` gives in one step of the servers that are there at that moment, whatever the
  -- others have done since it began.
  pub Reaches-list_servers :
      (n : ℕ) {s : System F}
      → Reaches n s
      → (i : ℕ) → i < n
      → {filter : ServerFilter} {result : List (Server F)} → s.places i ≡ listing filter [] result
      → (upload_dir : Bytes)
      → list_servers (some (record { servers = s.shared.servers; upload_dir = upload_dir })) filter
        ≡ ok result
  unfolding list_servers AllFollow Follows
  Reaches-list_servers n {s} h i below {filter} {result} place upload_dir =
      let follows : result ++ selected filter [] ≡ selected filter s.shared.servers =
        subst (Follows s.shared.servers) place (Reaches-AllFollow n h i below) in
      ap ok (sym follows ∙ append-nil result)
