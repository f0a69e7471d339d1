-- ===== src/Concurrency/Exclusion.antt =====
-- What the mutex keeps apart. (internal/store/memory_repo.go)
use leasewebassignment.Base.{
  ℕ, ◌+◌, ◌≤◌, ◌<◌, Bool, true, false, ◌≡◌, ◌≢◌, refl, sym, subst, ◌⊎◌, inl, inr, arith,
}
use leasewebassignment.Text.Case.{Unicode}
use leasewebassignment.Concurrency.{
  Shared, Pc, idle, list_locked, listing, replace_locked, replaced, Move, call_list, rlock,
  start_loop, loop, runlock, call_replace, lock, assign, unlock, collect, System, Step, picked,
  Reaches, new, stepped,
}
use leasewebassignment.Concurrency.Threads.{
  bit, count, count-move_thread, bit-count, two_bits-count, count-zero,
}

-- It may read the servers.
abbrev pub is_reading {ℓ} : {F : Type ℓ} → Pc F → Bool
is_reading (list_locked filter) = true
is_reading (listing filter rest result) = true
is_reading _ = false

-- It may write them.
abbrev pub is_writing {ℓ} : {F : Type ℓ} → Pc F → Bool
is_writing (replace_locked indexed) = true
is_writing replaced = true
is_writing _ = false

bit_zero : (b : Bool) → bit b ≤ 0 → b ≡ false
bit_zero true h = absurd (omega arith)
bit_zero false h = refl

module _ {ℓ} {F : Type ℓ} ⦃U : Unicode⦄ where
  -- Nobody holds the mutex to write, or one does and nobody to read.
  pub Exclusive : Shared F → Type 0
  Exclusive m = (m.writers ≡ 0) ⊎ ((m.writers ≡ 1) × (m.readers ≡ 0))

  readers-Move :
      {m m' : Shared F} {p p' : Pc F}
      → Move m p m' p'
      → bit (is_reading p) ≤ m.readers
      → m'.readers + bit (is_reading p) ≡ m.readers + bit (is_reading p')
  readers-Move (call_list filter) h = refl
  readers-Move (rlock free) h = omega arith
  readers-Move start_loop h = refl
  readers-Move loop h = refl
  readers-Move runlock h = omega (arith, h)
  readers-Move (call_replace servers) h = refl
  readers-Move (lock free free') h = refl
  readers-Move assign h = refl
  readers-Move unlock h = refl
  readers-Move collect h = refl

  writers-Move :
      {m m' : Shared F} {p p' : Pc F}
      → Move m p m' p'
      → bit (is_writing p) ≤ m.writers
      → m'.writers + bit (is_writing p) ≡ m.writers + bit (is_writing p')
  writers-Move (call_list filter) h = refl
  writers-Move (rlock free) h = refl
  writers-Move start_loop h = refl
  writers-Move loop h = refl
  writers-Move runlock h = refl
  writers-Move (call_replace servers) h = refl
  writers-Move (lock free free') h = omega (arith, free')
  writers-Move assign h = refl
  writers-Move unlock h = omega (arith, h)
  writers-Move collect h = refl

  Exclusive-Move : {m m' : Shared F} {p p' : Pc F} → Move m p m' p' → Exclusive m → Exclusive m'
  unfolding Exclusive
  Exclusive-Move (call_list filter) h = h
  Exclusive-Move (rlock free) h = inl free
  Exclusive-Move start_loop h = h
  Exclusive-Move loop h = h
  Exclusive-Move runlock (inl none_writes) = inl none_writes
  Exclusive-Move runlock (inr (one, none_reads)) = inr (one, omega (arith, none_reads))
  Exclusive-Move (call_replace servers) h = h
  Exclusive-Move (lock free free') h = inr (refl, free)
  Exclusive-Move assign h = h
  Exclusive-Move unlock (inl none_writes) = inl (omega (arith, none_writes))
  Exclusive-Move unlock (inr (one, none_reads)) = inl (omega (arith, one))
  Exclusive-Move collect h = h

  writer-Exclusive :
      (m : Shared F) → Exclusive m → 1 ≤ m.writers → (m.writers ≡ 1) × (m.readers ≡ 0)
  unfolding Exclusive
  writer-Exclusive m (inl none_writes) h = absurd (omega (arith, none_writes))
  writer-Exclusive m (inr held) h = held

  -- The counters of the mutex are those who hold it.
  pub record IsLocked (n : ℕ) (s : System F) : Type 0 where
    pub readers_are : s.shared.readers ≡ count is_reading n s.places
    pub writers_are : s.shared.writers ≡ count is_writing n s.places
    pub exclusive : Exclusive s.shared

  IsLocked-Step : (n : ℕ) {s t : System F} → Step n s t → IsLocked n s → IsLocked n t
  IsLocked-Step n {s} (picked i {pc} below move) h = record {
    readers_are = omega (
      arith,
      h.readers_are,
      readers-Move move (omega (arith, h.readers_are, bit-count is_reading n s.places i below)),
      count-move_thread is_reading n s.places i pc below,
    );
    writers_are = omega (
      arith,
      h.writers_are,
      writers-Move move (omega (arith, h.writers_are, bit-count is_writing n s.places i below)),
      count-move_thread is_writing n s.places i pc below,
    );
    exclusive = Exclusive-Move move h.exclusive;
  }

  pub Reaches-IsLocked : (n : ℕ) {s : System F} → Reaches n s → IsLocked n s
  unfolding Exclusive
  Reaches-IsLocked n new = record {
    readers_are = sym (count-zero is_reading n (λ i. idle) (λ i. refl));
    writers_are = sym (count-zero is_writing n (λ i. idle) (λ i. refl));
    exclusive = inl refl;
  }
  Reaches-IsLocked n (stepped h step) = IsLocked-Step n step (Reaches-IsLocked n h)

  -- While a goroutine may write the servers, no other may read or write them.
  pub Reaches-exclusive :
      (n : ℕ) {s : System F}
      → Reaches n s
      → (i j : ℕ) → i < n
      → j < n
      → is_writing (s.places i) ≡ true
      → (is_reading (s.places j) ≡ false) × (i ≢ j → is_writing (s.places j) ≡ false)
  Reaches-exclusive n {s} h i j below below' writes =
      let locked = Reaches-IsLocked n h in
      let one_writes : 1 ≤ count is_writing n s.places =
        subst (λ b. bit b ≤ count is_writing n s.places) writes
          (bit-count is_writing n s.places i below) in
      let (one, none_reads) =
        writer-Exclusive s.shared locked.exclusive
          (omega (arith, one_writes, locked.writers_are)) in
      (
        bit_zero (is_reading (s.places j)) (
            omega
              (arith, none_reads, locked.readers_are, bit-count is_reading n s.places j below')),
        λ other. bit_zero (is_writing (s.places j)) (
            omega (
              arith,
              one,
              locked.writers_are,
              subst (λ b. bit b + bit (is_writing (s.places j)) ≤ count is_writing n s.places)
                  writes (two_bits-count is_writing n s.places i j below below' other),
            )),
      )
