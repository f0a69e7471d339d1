-- ===== src/Concurrency/Uploads/Ending.antt =====
-- An upload comes to its end. (internal/service/service.go, internal/store/memory_repo.go)
use native.Mathlib.Decide.{ℕ_discrete}
use mathlib.Core.Logic.{ite, if_pos, if_neg}
use leasewebassignment.Base.{
  List, [], ◌∷◌, true, false, sym, ap, ◌∙◌, ◌≢◌, ℕ, zero, suc, ◌+◌, ◌<◌, ◌≤◌, ◌≡◌, refl, subst, ◌⊎◌,
  inl, inr, arith,
}
use leasewebassignment.Text.{Bytes}
use leasewebassignment.Text.Case.{Unicode}
use leasewebassignment.Store.Files.{FileSystem}
use leasewebassignment.Service.{Parser}
use leasewebassignment.Concurrency.Threads.{move_thread, move_thread_here, move_thread_there}
use leasewebassignment.Concurrency.Uploads.{Job, Pc, Shared, System, Move, picked, Reaches}
use leasewebassignment.Concurrency.Uploads.Guard.{
  is_holding, IsGuarded, IsGuarded-Step, Reaches-IsGuarded,
}
use leasewebassignment.Concurrency.Uploads.Progress.{
  steps_left, steps_left-Move, steps_left_bound, HasServers, pc-CanMove, holding-CanMove, IsOver,
  steps_left-IsOver,
}

-- The most steps that are left of the first `n` uploads.
total_left : ℕ → (ℕ → Pc) → ℕ
total_left zero places = 0
total_left (suc n) places = total_left n places + steps_left (places n)

total_left-same :
    (n i : ℕ) (places : ℕ → Pc) (pc : Pc)
    → n ≤ i
    → total_left n (move_thread places i pc) ≡ total_left n places
unfolding total_left
total_left-same zero i places pc le = refl
total_left-same (suc n) i places pc le = rw (
  total_left-same n i places pc (omega (arith, le)),
  move_thread_there places i pc {j = n} (λ e. omega (arith, le, e)),
)

total_left-less :
    (n i : ℕ) (places : ℕ → Pc) (pc : Pc)
    → i < n
    → steps_left pc < steps_left (places i)
    → total_left n (move_thread places i pc) < total_left n places
unfolding total_left
total_left-less zero i places pc below less = omega (arith, below)
total_left-less (suc n) i places pc below less = elim (ℕ_discrete i n) [
  | yes is_n ↦
      rw (total_left-same n i places pc (omega (arith, is_n)), move_thread_here places i pc is_n)
        (let here = subst (λ k. steps_left pc < steps_left (places k)) is_n less in
          omega (arith, here))
  | no not_n ↦ rw (move_thread_there places i pc not_n) (
      let rest = total_left-less n i places pc (omega (arith, below, not_n)) less in
      omega (arith, rest))
]

-- How many steps of a run are those of one goroutine.
unfoldable pub steps_of : ℕ → List ℕ → ℕ
steps_of i [] = 0
steps_of i (j ∷ trace) = ite (ℕ_discrete j i) 1 0 + steps_of i trace

module _ {ℓ} (fs : FileSystem) {F : Type ℓ} ⦃U : Unicode⦄ (parse : Parser F) (dir : Bytes) (n : ℕ)
    (jobs : ℕ → Job F) where
  -- A run, with the goroutines that take its steps.
  pub data Runs : List ℕ → System fs F → System fs F → Type ℓ where
    rest : {s : System fs F} → Runs [] s s
    step :
        {trace : List ℕ} {s t : System fs F} (i : ℕ) {m : Shared fs F} {pc : Pc}
        → i < n
        → Move fs parse dir (jobs i) s.shared (s.places i) m pc
        → Runs trace (record { shared = m; places = move_thread s.places i pc }) t
        → Runs (i ∷ trace) s t

  steps_of-Runs :
      (trace : List ℕ) {s t : System fs F} (i : ℕ)
      → Runs trace s t
      → steps_of i trace + steps_left (t.places i) ≤ steps_left (s.places i)
  unfolding steps_of
  steps_of-Runs [] i rest = omega arith
  steps_of-Runs (j ∷ trace) {s} i (step _ {pc} below move more) =
      let others = steps_of-Runs trace i more in
      elim (ℕ_discrete j i) [
        | yes is_i ↦
            let less = steps_left-Move fs parse dir (jobs j) move in
            let here = ap steps_left (move_thread_here s.places j pc is_i) in
            let there = ap (λ k. steps_left (s.places k)) is_i in
            rw (if_pos {C = ℕ} (ℕ_discrete j i) is_i 1 0) (omega (arith, others, less, here, there))
        | no not_i ↦
            let same = ap steps_left (move_thread_there s.places j pc not_i) in
            rw (if_neg {C = ℕ} (ℕ_discrete j i) not_i 1 0) (omega (arith, others, same))
      ]

  module _ (has : (i : ℕ) → i < n → HasServers fs parse dir (jobs i)) where
    abbrev CanStep : System fs F → Type ℓ
    CanStep s =
        (i : ℕ) × (m : Shared fs F) × (pc : Pc) × (i < n)
        × Move fs parse dir (jobs i) s.shared (s.places i) m pc

    -- The one that holds the mutex can go on.
    holder-CanStep : (s : System fs F) (i : ℕ) → i < n → is_holding (s.places i) ≡ true → CanStep s
    holder-CanStep s i below held =
        let (m, pc, move) = holding-CanMove fs parse dir (jobs i) s.shared (s.places i) held in
        (i, m, pc, below, move)

    one-CanStep :
        (s : System fs F)
        → IsGuarded fs parse dir n jobs s
        → (i : ℕ) → i < n
        → steps_left (s.places i) ≢ 0
        → CanStep s
    one-CanStep s guarded i below on =
        elim (pc-CanMove fs parse dir (jobs i) (has i below) s.shared (s.places i) on) [
          | inl (m, pc, move) ↦ (i, m, pc, below, move)
          | inr (_, locked) ↦ elim guarded [
            | inl free ↦ absurd (cc (sym locked ∙ free))
            | inr (j, j_below, held) ↦ holder-CanStep s j j_below held
          ]
        ]

    -- Either all uploads are over, or one can go on.
    IsOver-or_CanStep :
        (s : System fs F)
        → IsGuarded fs parse dir n jobs s
        → (k : ℕ) → k ≤ n
        → ((i : ℕ) → i < k → IsOver (s.places i)) ⊎ CanStep s
    IsOver-or_CanStep s guarded zero le = inl (λ i below. absurd (omega (arith, below)))
    IsOver-or_CanStep s guarded (suc k) le = elim (ℕ_discrete (steps_left (s.places k)) 0) [
      | no on ↦ inr (one-CanStep s guarded k (omega (arith, le)) on)
      | yes is_over ↦ elim (IsOver-or_CanStep s guarded k (omega (arith, le))) [
        | inr can ↦ inr can
        | inl others ↦ inl (λ i below. elim (ℕ_discrete k i) [
          | yes is_k ↦
              subst (λ j. IsOver (s.places j)) is_k (steps_left-IsOver (s.places k) is_over)
          | no not_k ↦ others i (omega (arith, below, not_k))
        ])
      ]
    ]

    -- A run leads to a state in which every upload is over.
    abbrev pub ComesToEnd : System fs F → Type ℓ
    ComesToEnd s =
        (trace : List ℕ) × (t : System fs F) × Runs trace s t
        × ((i : ℕ) → i < n → IsOver (t.places i))

    runs-ComesToEnd :
        (fuel : ℕ) (s : System fs F)
        → IsGuarded fs parse dir n jobs s
        → total_left n s.places ≤ fuel
        → ComesToEnd s
    runs-ComesToEnd zero s guarded le = elim (IsOver-or_CanStep s guarded n (omega arith)) [
      | inl over ↦ ([], s, rest, over)
      | inr (i, m, pc, below, move) ↦
          let less =
            total_left-less n i s.places pc below (steps_left-Move fs parse dir (jobs i) move) in
          absurd (omega (arith, less, le))
    ]
    runs-ComesToEnd (suc fuel) s guarded le = elim (IsOver-or_CanStep s guarded n (omega arith)) [
      | inl over ↦ ([], s, rest, over)
      | inr (i, m, pc, below, move) ↦
          let less =
            total_left-less n i s.places pc below (steps_left-Move fs parse dir (jobs i) move) in
          let (trace, t, more, over) =
            runs-ComesToEnd fuel (record { shared = m; places = move_thread s.places i pc })
              (IsGuarded-Step fs parse dir n jobs (picked i below move) guarded)
              (omega (arith, less, le)) in
          (i ∷ trace, t, step i below move more, over)
    ]

    -- Uploads at once come to their end: in every state that they reach, whatever their order, each of
    -- them has at most eleven steps to take, and they can go on until every one of them is stored or has
    -- failed: none waits for the mutex for ever. The mutex is free at first, and the servers of an upload
    -- are those that the parser makes of it, if it makes any.
    pub Runs-ComesToEnd :
        (m₀ : Shared fs F)
        → m₀.locked ≡ false
        → {s : System fs F} → Reaches fs parse dir n jobs m₀ s
        → ((trace : List ℕ) (t : System fs F) → Runs trace s t → (i : ℕ) → steps_of i trace ≤ 11)
          × ComesToEnd s
    Runs-ComesToEnd m₀ free {s} reached = (
      λ trace t runs i.
          let took = steps_of-Runs trace i runs in
          let most = steps_left_bound (s.places i) in omega (arith, took, most),
      runs-ComesToEnd (total_left n s.places) s (Reaches-IsGuarded fs parse dir n jobs free reached)
          (omega arith),
    )
