-- ===== src/Store/Atomic.antt =====
-- The steps of `SaveUpload`, and what each leaves of the files. (internal/store/memory_repo.go)
use leasewebassignment.Base.{
  [], ◌∷◌, ◌++◌, none, some, ◌≡◌, ◌≢◌, refl, sym, ap, ◌∙◌, ◌⊎◌, inl, inr, Result, ok, err,
  Option-cases, Result-cases, Bool-cases,
}
use leasewebassignment.Text.{Bytes, codes, is_empty, same}
use leasewebassignment.Text.Laws.{same_iff}
use leasewebassignment.Errors.{Error}
use leasewebassignment.Store.{MemoryRepository, source_path_required}
use leasewebassignment.Store.Path.{base, join_path}
use leasewebassignment.Store.Files.{FileSystem, SameBut, Same, IsFileSystem}
use leasewebassignment.Store.Upload.{
  discard, publish, sync_and_publish, write_and_publish, create_and_publish, save_upload,
  close_after, save_error,
}

-- Where an upload is kept.
abbrev pub stored_path {ℓ} : {F : Type ℓ} → MemoryRepository F → Bytes → Bytes
stored_path r filename = join_path (r.upload_dir ∷ base filename ∷ [])

pub Bytes-dec : (a b : Bytes) → (a ≡ b) ⊎ (a ≢ b)
Bytes-dec a b = elim (Bool-cases (same a b)) [
  | inl e ↦ inl ((same_iff a b).0 e)
  | inr e ↦ inr (λ p. absurd (cc (sym e ∙ (same_iff a b).1 p)))
]

module _ (fs : FileSystem) (ax : IsFileSystem fs) where
  -- `os.Remove` does not fail.
  abbrev pub Removes : Type 0
  Removes = (name : Bytes) (s : fs.State) → (fs.remove name s).1 ≡ none

  module _ (s₀ : fs.State) (final_path bytes : Bytes) where
    -- From `s₀` on, the upload is under its final name and no other file has changed, or no file has
    -- changed but the temporary one, which is gone if it could be removed.
    abbrev Saved : Bytes → fs.State → Result Error Bytes → Type 0
    Saved tmp s (ok p) =
        (p ≡ final_path) × (fs.content s final_path ≡ some bytes) × SameBut fs final_path s₀ s
    Saved tmp s (err e) = SameBut fs tmp s₀ s × (Removes → fs.content s tmp ≡ none)

    discard-Saved :
        (tmp : Bytes) (e : Error) (s : fs.State)
        → SameBut fs tmp s₀ s
        → Saved tmp (discard fs tmp e s).0 (discard fs tmp e s).1
    unfolding discard
    discard-Saved tmp e s h =
        ((λ p ne. ax.remove_others tmp s p ne ∙ h p ne), λ rm. ax.remove_gone tmp s (rm tmp s))

    module _ (tmp : Bytes) (fresh : fs.content s₀ tmp ≡ none) where
      renamed :
          (s : fs.State)
          → SameBut fs tmp s₀ s
          → (fs.rename tmp final_path s).1 ≡ none
          → SameBut fs final_path s₀ (fs.rename tmp final_path s).0
      renamed s h e p ne = elim (Bytes-dec p tmp) [
        | inl is_tmp ↦
            rw is_tmp (ax.rename_old tmp final_path s e (λ q. ne (is_tmp ∙ q)) ∙ sym fresh)
        | inr other ↦ ax.rename_others tmp final_path s p other ne ∙ h p other
      ]

      publish-Saved :
          (s : fs.State)
          → SameBut fs tmp s₀ s
          → fs.content s tmp ≡ some bytes
          → Saved tmp (publish fs tmp final_path s).0 (publish fs tmp final_path s).1
      unfolding publish
      publish-Saved s h c = elim (Option-cases (fs.rename tmp final_path s).1) [
        | inl done ↦
            rw (done, publish) (refl, ax.rename_new tmp final_path s done ∙ c, renamed s h done)
        | inr (e, failed) ↦
            rw (failed, publish)
              (discard-Saved tmp e _ (λ p ne. ax.rename_same tmp final_path s e failed p ∙ h p ne))
      ]

      sync-Saved :
          (s : fs.State)
          → SameBut fs tmp s₀ s
          → fs.content s tmp ≡ some bytes
          → Saved tmp
              (sync_and_publish fs tmp final_path s).0
              (sync_and_publish fs tmp final_path s).1
      unfolding sync_and_publish
      sync-Saved s h c = elim (Option-cases (fs.sync tmp s).1) [
        | inl done ↦
            rw (done, sync_and_publish)
              (publish-Saved (fs.sync tmp s).0 (λ p ne. ax.sync_same tmp s p ∙ h p ne)
                (ax.sync_same tmp s tmp ∙ c))
        | inr (e, failed) ↦
            rw (failed, sync_and_publish)
              (discard-Saved tmp e _ (λ p ne. ax.sync_same tmp s p ∙ h p ne))
      ]

      write-Saved :
          (s : fs.State)
          → SameBut fs tmp s₀ s
          → fs.content s tmp ≡ some []
          → Saved tmp
              (write_and_publish fs tmp final_path bytes s).0
              (write_and_publish fs tmp final_path bytes s).1
      unfolding write_and_publish
      write-Saved s h c = elim (Option-cases (fs.write tmp bytes s).1) [
        | inl done ↦
            rw (done, write_and_publish)
              (sync-Saved (fs.write tmp bytes s).0
                (λ p ne. ax.write_others tmp bytes s p ne ∙ h p ne)
                (ax.write_content tmp bytes s c done))
        | inr (e, failed) ↦
            rw (failed, write_and_publish)
              (discard-Saved tmp e _ (λ p ne. ax.write_others tmp bytes s p ne ∙ h p ne))
      ]

  module _ (s₀ : fs.State) (final_path bytes : Bytes) where
    -- The same, where the temporary file is no longer in sight.
    abbrev pub Total : fs.State → Result Error Bytes → Type 0
    Total s (ok p) =
        (p ≡ final_path) × (fs.content s final_path ≡ some bytes) × SameBut fs final_path s₀ s
    Total s (err e) =
        ((p c : Bytes) → fs.content s₀ p ≡ some c → fs.content s p ≡ some c)
        × (Removes → Same fs s₀ s)

    Same-Total : (s : fs.State) (e : Error) → Same fs s₀ s → Total s (err e)
    Same-Total s e h = ((λ p c k. h p ∙ k), λ _. h)

    Saved-Total :
        (tmp : Bytes) (s : fs.State) (r : Result Error Bytes)
        → fs.content s₀ tmp ≡ none
        → Saved s₀ final_path bytes tmp s r
        → Total s r
    Saved-Total tmp s (ok p) fresh h = h
    Saved-Total tmp s (err e) fresh (h, gone) = (
      (λ p c k. h p (λ q. absurd (cc (sym k ∙ ap (fs.content s₀) q ∙ fresh))) ∙ k),
      λ rm p. elim (Bytes-dec p tmp) [
        | inl is_tmp ↦ rw is_tmp (gone rm ∙ sym fresh)
        | inr other ↦ h p other
      ],
    )

    close-Total :
        (tmp : Bytes) (s : fs.State) (r : Result Error Bytes)
        → Total s r
        → Total (close_after fs tmp (s, r)).0 (close_after fs tmp (s, r)).1
    close-Total tmp s (ok p) (a, b, c) =
        (a, ax.close_same tmp s final_path ∙ b, λ q ne. ax.close_same tmp s q ∙ c q ne)
    close-Total tmp s (err e) (a, b) =
        ((λ p c k. ax.close_same tmp s p ∙ a p c k), λ rm p. ax.close_same tmp s p ∙ b rm p)

  create-Total :
      (s₀ s : fs.State) (dir name bytes : Bytes)
      → Same fs s₀ s
      → Total s₀
          (join_path (dir ∷ name ∷ []))
          bytes
          (create_and_publish fs dir name bytes s).0
          (create_and_publish fs dir name bytes s).1
  unfolding create_and_publish
  create-Total s₀ s dir name bytes h =
      elim (Result-cases (fs.create_temp dir (name ++ codes "-*.tmp") s).1) [
        | inr (e, failed) ↦
            rw (failed, create_and_publish)
              (Same-Total s₀ (join_path (dir ∷ name ∷ [])) bytes _ (save_error e)
                (λ p. ax.create_temp_same dir _ s e failed p ∙ h p))
        | inl (tmp, made) ↦
            let (fresh, empty, others) = ax.create_temp_new dir _ s tmp made in
            let fresh' : fs.content s₀ tmp ≡ none = sym (h tmp) ∙ fresh in
            rw (made, create_and_publish)
              (close-Total s₀ (join_path (dir ∷ name ∷ [])) bytes tmp _ _ (
                Saved-Total s₀ (join_path (dir ∷ name ∷ [])) bytes tmp _ _ fresh' (
                  write-Saved s₀ (join_path (dir ∷ name ∷ [])) bytes tmp fresh' _
                    (λ p ne. others p ne ∙ h p) empty)))
      ]

  module _ {ℓ} {F : Type ℓ} (r : MemoryRepository F) (filename bytes : Bytes) (s : fs.State) where
    pub save-Total :
        Total s
          (stored_path r filename)
          bytes
          (save_upload fs (some r) filename bytes s).0
          (save_upload fs (some r) filename bytes s).1
    unfolding save_upload
    save-Total = elim (Bool-cases (is_empty filename)) [
      | inl nil ↦
          rw (nil, save_upload)
            (Same-Total s (stored_path r filename) bytes s (save_error source_path_required)
              (λ p. refl))
      | inr named ↦ elim (Option-cases (fs.mkdir_all r.upload_dir s).1) [
        | inr (e, failed) ↦
            rw (named, failed, save_upload)
              (Same-Total s (stored_path r filename) bytes _ (save_error e)
                (ax.mkdir_all_same r.upload_dir s))
        | inl done ↦
            rw (named, done, save_upload)
              (create-Total s _ r.upload_dir (base filename) bytes
                (ax.mkdir_all_same r.upload_dir s))
      ]
    ]
