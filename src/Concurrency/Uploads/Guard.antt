-- ===== src/Concurrency/Uploads/Guard.antt =====
-- Who has the mutex while uploads run. (internal/store/memory_repo.go)
use leasewebassignment.Base.{ℕ, ◌<◌, Bool, true, false, ◌≡◌, ◌≢◌, refl, sym, ap, ◌∙◌, ◌⊎◌, inl, inr}
use leasewebassignment.Text.{Bytes}
use leasewebassignment.Text.Case.{Unicode}
use leasewebassignment.Store.Files.{FileSystem}
use leasewebassignment.Service.{Parser}
use leasewebassignment.Concurrency.Threads.{move_thread_here, move_thread_there}
use leasewebassignment.Concurrency.Uploads.{
  Job, Pc, replacing, replaced, Shared, System, Move, begin, parse_fails, name_missing, mkdir,
  mkdir_fails, create, create_fails, write, write_fails, sync, sync_fails, rename, rename_fails,
  remove, close, close_failed, lock, assign, unlock, Step, picked, Reaches, new, stepped,
}

-- The goroutine is between `Lock` and `Unlock`.
abbrev pub is_holding : Pc → Bool
is_holding replacing = true
is_holding replaced = true
is_holding _ = false

module _ {ℓ} (fs : FileSystem) {F : Type ℓ} ⦃U : Unicode⦄ (parse : Parser F) (dir : Bytes) where
  -- A step leaves the mutex free, or is in the hands of the goroutine that takes it, or leaves it alone.
  Leaves : Shared fs F → Pc → Shared fs F → Pc → Type 0
  Leaves m pc m' pc' =
      (m'.locked ≡ false)
      ⊎ ((is_holding pc' ≡ true) ⊎ ((m'.locked ≡ m.locked) × (is_holding pc ≡ false)))

  Leaves-Move :
      (job : Job F) {m m' : Shared fs F} {pc pc' : Pc}
      → Move fs parse dir job m pc m' pc'
      → Leaves m pc m' pc'
  unfolding Leaves
  Leaves-Move job (begin good named) = inr (inr (refl, refl))
  Leaves-Move job (parse_fails bad) = inr (inr (refl, refl))
  Leaves-Move job (name_missing good unnamed) = inr (inr (refl, refl))
  Leaves-Move job (mkdir done) = inr (inr (refl, refl))
  Leaves-Move job (mkdir_fails e) = inr (inr (refl, refl))
  Leaves-Move job (create done) = inr (inr (refl, refl))
  Leaves-Move job (create_fails e) = inr (inr (refl, refl))
  Leaves-Move job (write done) = inr (inr (refl, refl))
  Leaves-Move job (write_fails e) = inr (inr (refl, refl))
  Leaves-Move job (sync done) = inr (inr (refl, refl))
  Leaves-Move job (sync_fails e) = inr (inr (refl, refl))
  Leaves-Move job (rename done) = inr (inr (refl, refl))
  Leaves-Move job (rename_fails e) = inr (inr (refl, refl))
  Leaves-Move job remove = inr (inr (refl, refl))
  Leaves-Move job close = inr (inr (refl, refl))
  Leaves-Move job close_failed = inr (inr (refl, refl))
  Leaves-Move job (lock free) = inr (inl refl)
  Leaves-Move job assign = inr (inl refl)
  Leaves-Move job unlock = inl refl

  module _ (n : ℕ) (jobs : ℕ → Job F) where
    -- The mutex is free, or one of the goroutines holds it.
    abbrev pub IsGuarded : System fs F → Type 0
    IsGuarded s = (s.shared.locked ≡ false) ⊎ ((i : ℕ) × (i < n) × (is_holding (s.places i) ≡ true))

    pub IsGuarded-Step :
        {s s' : System fs F} → Step fs parse dir n jobs s s' → IsGuarded s → IsGuarded s'
    unfolding Leaves
    IsGuarded-Step {s} (picked i {pc} below move) h = elim (Leaves-Move (jobs i) move) [
      | inl free ↦ inl free
      | inr (inl mine) ↦ inr (i, below, ap is_holding (move_thread_here s.places i pc refl) ∙ mine)
      | inr (inr (same, mine_not)) ↦ elim h [
        | inl free ↦ inl (same ∙ free)
        | inr (j, held_below, held) ↦
            let other : i ≢ j =
              λ e. cc (sym mine_not ∙ ap (λ k. is_holding (s.places k)) e ∙ held) in
            inr (j, held_below, ap is_holding (move_thread_there s.places i pc other) ∙ held)
      ]
    ]

    pub Reaches-IsGuarded :
        {m₀ : Shared fs F}
        → m₀.locked ≡ false
        → {s : System fs F} → Reaches fs parse dir n jobs m₀ s
        → IsGuarded s
    Reaches-IsGuarded free new = inl free
    Reaches-IsGuarded free (stepped h one) = IsGuarded-Step one (Reaches-IsGuarded free h)
