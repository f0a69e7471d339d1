-- ===== src/Concurrency/Uploads/Whole.antt =====
-- What others see of the files and of the catalog while uploads run.
-- (internal/service/service.go, internal/store/memory_repo.go)
use native.Mathlib.Decide.{ℕ_discrete}
use leasewebassignment.Base.{ℕ, ◌<◌, some, ◌≡◌, ◌≢◌, refl, sym, subst, ◌∙◌, inl, inr}
use leasewebassignment.Text.{Bytes}
use leasewebassignment.Text.Case.{Unicode}
use leasewebassignment.Store.Files.{FileSystem, IsFileSystem}
use leasewebassignment.Service.{Parser}
use leasewebassignment.Concurrency.Threads.{move_thread, move_thread_here, move_thread_there}
use leasewebassignment.Concurrency.Uploads.{
  Job, Pc, Shared, System, Move, picked, Reaches, new, stepped,
}
use leasewebassignment.Concurrency.Uploads.Holding.{
  temp_of, IsTemp, Holds, Began, Began-Move, Holds-Move, temp_of-Move,
}
use leasewebassignment.Concurrency.Uploads.Invariant.{
  IsApart, IsWhole, IsStocked, IsSound, Held-none, IsStocked-Move,
}
use leasewebassignment.Concurrency.Uploads.Effects.{Effect, Effect-Move}

module _ {ℓ} (fs : FileSystem) {F : Type ℓ} ⦃U : Unicode⦄ (parse : Parser F) (dir : Bytes) (n : ℕ)
    (jobs : ℕ → Job F) (m₀ : Shared fs F) where
  module _ (ax : IsFileSystem fs) (apart : IsApart fs parse dir n jobs m₀) (s : System fs F)
      (h : IsSound fs parse dir n jobs m₀ s) (i : ℕ) (below : i < n) {m : Shared fs F} {pc : Pc}
      (move : Move fs parse dir (jobs i) s.shared (s.places i) m pc) where
    effect : (p : Bytes) → Effect fs parse dir (jobs i) s.shared (s.places i) m pc p
    effect p = Effect-Move fs parse dir (jobs i) ax move (h.holds i) (h.began i) p

    own : Holds fs parse dir (jobs i) m pc
    own = Holds-Move fs parse dir (jobs i) ax move (h.holds i)

    -- A goroutine that does not move keeps what it has.
    others_hold : (j : ℕ) → i ≢ j → Holds fs parse dir (jobs j) m (s.places j)
    others_hold j other tmp e =
        let (named, held) = h.holds j tmp e in
        elim (effect tmp) [
          | inl same ↦ (named, rw same held)
          | inr (inl mine) ↦ absurd (h.distinct i j other tmp mine e)
          | inr (inr (inl (_, free))) ↦
              absurd
                (Held-none fs parse dir n jobs m₀ (jobs j) (s.places j) tmp e (rw free at held))
          | inr (inr (inr (is_final, _, _))) ↦ absurd (apart j i (rw is_final at named))
        ]

    -- No other goroutine has the temporary file.
    mine_alone :
        (j : ℕ)
        → i ≢ j
        → (tmp : Bytes) → temp_of pc ≡ some tmp
        → temp_of (s.places j) ≡ some tmp
        → ⊥
    mine_alone j other tmp mine its = elim (temp_of-Move fs parse dir (jobs i) ax move tmp mine) [
      | inl before ↦ h.distinct i j other tmp before its
      | inr free ↦
          Held-none fs parse dir n jobs m₀ (jobs j) (s.places j) tmp its
            (rw free at (h.holds j tmp its).1)
    ]

    still-IsWhole :
        (p : Bytes)
        → ((j : ℕ) → IsTemp fs parse dir (jobs j) p → ⊥)
        → IsWhole fs parse dir n jobs m₀ m p
    still-IsWhole p no_temp = elim (effect p) [
      | inl same ↦ rw same (h.whole p no_temp)
      | inr (inl mine) ↦ absurd (no_temp i (h.holds i p mine).0)
      | inr (inr (inl (mine, _))) ↦ absurd (no_temp i (own p mine).0)
      | inr (inr (inr (is_final, held, good))) ↦ inr (i, below, sym is_final, held, good)
    ]

    abbrev after : System fs F
    after = record { shared = m; places = move_thread s.places i pc }

    after_distinct :
        (k j : ℕ)
        → k ≢ j
        → (tmp : Bytes) → temp_of (after.places k) ≡ some tmp
        → temp_of (after.places j) ≡ some tmp
        → ⊥
    after_distinct k j other tmp e f = elim (ℕ_discrete i k) [
      | yes is_k ↦
          mine_alone j (λ is_j. other (sym is_k ∙ is_j)) tmp
            (rw (move_thread_here s.places i pc is_k) at e)
            (rw (move_thread_there s.places i pc (λ is_j. other (sym is_k ∙ is_j))) at f)
      | no not_k ↦ elim (ℕ_discrete i j) [
        | yes is_j ↦
            mine_alone k not_k tmp (rw (move_thread_here s.places i pc is_j) at f)
              (rw (move_thread_there s.places i pc not_k) at e)
        | no not_j ↦
            h.distinct k j other tmp (rw (move_thread_there s.places i pc not_k) at e)
              (rw (move_thread_there s.places i pc not_j) at f)
      ]
    ]

    -- What holds of the mover at its new place and of the others at theirs holds of all.
    everywhere :
        (P : ℕ → Pc → Type ℓ)
        → P i pc
        → ((j : ℕ) → i ≢ j → P j (s.places j))
        → (j : ℕ) → P j (after.places j)
    everywhere P here there j = elim (ℕ_discrete i j) [
      | yes is_j ↦ rw (move_thread_here s.places i pc is_j) (subst (λ k. P k pc) is_j here)
      | no not_j ↦ rw (move_thread_there s.places i pc not_j) (there j not_j)
    ]

    after-IsSound : IsSound fs parse dir n jobs m₀ after
    after-IsSound = record {
      began =
          everywhere (λ j place. Began fs parse dir (jobs j) place)
            (Began-Move fs parse dir (jobs i) move (h.began i)) (λ j _. h.began j);
      holds = holds_everywhere;
      distinct = after_distinct;
      whole = still-IsWhole;
      stocked = IsStocked-Move fs parse dir n jobs m₀ i below move (h.began i) h.stocked;
    }
      where
        holds_everywhere : (j : ℕ) → Holds fs parse dir (jobs j) m (after.places j)
        holds_everywhere j = elim (ℕ_discrete i j) [
          | yes is_j ↦
              rw (move_thread_here s.places i pc is_j)
                (subst (λ k. Holds fs parse dir (jobs k) m pc) is_j own)
          | no not_j ↦ rw (move_thread_there s.places i pc not_j) (others_hold j not_j)
        ]

  Reaches-IsSound :
      IsFileSystem fs
      → IsApart fs parse dir n jobs m₀
      → {s : System fs F} → Reaches fs parse dir n jobs m₀ s
      → IsSound fs parse dir n jobs m₀ s
  Reaches-IsSound ax apart new = record {
    began = λ j. tt;
    holds = λ j tmp e. absurd (cc e);
    distinct = λ i j other tmp e. absurd (cc e);
    whole = λ p no_temp. inl refl;
    stocked = inl refl;
  }
  Reaches-IsSound ax apart (stepped {s} h (picked i below move)) =
      after-IsSound ax apart s (Reaches-IsSound ax apart h) i below move

  -- However the uploads interleave, and whichever of their operations fail, the file at every path
  -- that is not a temporary one is what it was before, or the whole of an upload that was parsed and is
  -- kept there, and the catalog is what it was, or that of an upload that was parsed. The file system
  -- does what it documents, and no upload is kept under the name of a temporary file.
  pub Reaches-IsWhole :
      IsFileSystem fs
      → IsApart fs parse dir n jobs m₀
      → {s : System fs F} → Reaches fs parse dir n jobs m₀ s
      → (p : Bytes) → ((i : ℕ) → IsTemp fs parse dir (jobs i) p → ⊥)
      → IsWhole fs parse dir n jobs m₀ s.shared p × IsStocked fs parse dir n jobs m₀ s.shared
  Reaches-IsWhole ax apart h p no_temp =
      let sound = Reaches-IsSound ax apart h in (sound.whole p no_temp, sound.stocked)
