-- ===== src/Store/Catalog.antt =====
-- The repository as a list of servers: `ReplaceServers` and `ListServers` against that view.
-- (internal/store/memory_repo.go)
use leasewebassignment.Base.{
  Bool, true, List, [], ◌∷◌, map, none, some, ◌≡◌, refl, ap, ◌↔◌, inl, inr, keep, All, ok,
  Bool-cases,
}
use leasewebassignment.Text.{Bytes}
use leasewebassignment.Text.Case.{Unicode}
use leasewebassignment.Model.{Server, ServerFilter}
use leasewebassignment.Store.{
  IndexedServer, MemoryRepository, new_memory_repository, new_indexed_server, prepare_filter,
  matches_filter, list_servers, replace_servers,
}
use leasewebassignment.Store.Matching.{Matches, matches_filter_iff}

-- The catalog that a repository holds.
abbrev pub catalog {ℓ} : {F : Type ℓ} → MemoryRepository F → List (Server F)
catalog r = map (λ idx. idx.server) r.servers

-- Every derived field is what its server gives.
abbrev pub IsIndexed {ℓ} : {F : Type ℓ} ⦃U : Unicode⦄ → MemoryRepository F → Type ℓ
IsIndexed r = All (λ idx. idx ≡ new_indexed_server idx.server) r.servers

abbrev pub no_filter : ServerFilter
no_filter = record {
  model = [];
  ram = [];
  location = [];
  disk_type = [];
  storage_min = none;
  storage_max = none;
}

module _ {ℓ} ⦃U : Unicode⦄ {F : Type ℓ} where
  server-new_indexed_server : (s : Server F) → (new_indexed_server s).server ≡ s
  unfolding new_indexed_server
  server-new_indexed_server s = refl

  pub indexed-map :
      (ss : List (Server F))
      → All (λ idx. idx ≡ new_indexed_server idx.server) (map new_indexed_server ss)
  unfolding new_indexed_server
  indexed-map [] = tt
  indexed-map (s ∷ ss) = (refl, indexed-map ss)

  catalog-map : (ss : List (Server F)) → map (λ idx. idx.server) (map new_indexed_server ss) ≡ ss
  unfolding new_indexed_server
  catalog-map [] = refl
  catalog-map (s ∷ ss) = ap (◌∷◌ s) (catalog-map ss)

  -- A new repository is empty and indexed. Replacing the catalog of any repository leaves exactly
  -- the given servers, in order, with their index, and the upload directory as it was.
  pub replace_servers-IsIndexed :
      (upload_dir : Bytes) (r : MemoryRepository F) (ss : List (Server F))
      → IsIndexed (new_memory_repository {F = F} upload_dir)
        × (catalog (new_memory_repository {F = F} upload_dir) ≡ [])
        × ((r' : MemoryRepository F) × (replace_servers (some r) ss ≡ ok r')
            × IsIndexed r'
            × (catalog r' ≡ ss)
            × (r'.upload_dir ≡ r.upload_dir))
  unfolding new_memory_repository replace_servers
  replace_servers-IsIndexed upload_dir r ss = (
    tt,
    refl,
    (record r { servers = map new_indexed_server ss }, refl, indexed-map ss, catalog-map ss, refl),
  )

  keep-indexed :
      (f : ServerFilter) (idxs : List (IndexedServer F))
      → All (λ idx. idx ≡ new_indexed_server idx.server) idxs
      → map (λ idx. idx.server) (keep (λ idx. matches_filter idx (prepare_filter f)) idxs)
        ≡ keep
            (λ s. matches_filter (new_indexed_server s) (prepare_filter f))
            (map (λ idx. idx.server) idxs)
  keep-indexed f [] h = refl
  keep-indexed f (idx ∷ idxs) (e, h) =
      rw (← e) (elim (Bool-cases (matches_filter idx (prepare_filter f))) [
        | inl yes_it ↦ rw yes_it (ap (◌∷◌ idx.server) (keep-indexed f idxs h))
        | inr not_it ↦ rw not_it (keep-indexed f idxs h)
      ])

  -- A query of an indexed repository returns the servers of the catalog that match the filter: all
  -- of them, no others, in the order of the catalog.
  pub list_servers-catalog :
      (r : MemoryRepository F) (f : ServerFilter)
      → IsIndexed r
      → (test : Server F → Bool) × ((s : Server F) → (test s ≡ true) ↔ Matches s f)
        × (list_servers (some r) f ≡ ok (keep test (catalog r)))
  unfolding list_servers
  list_servers-catalog r f h = (
    (λ s. matches_filter (new_indexed_server s) (prepare_filter f)),
    (λ s. matches_filter_iff s f),
    ap ok (keep-indexed f r.servers h),
  )
