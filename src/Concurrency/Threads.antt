-- ===== src/Concurrency/Threads.antt =====
-- Threads as a family indexed by numbers, of which those below a bound run: one moves, and how many
-- are somewhere.
use native.Mathlib.Decide.{dec_lt, ℕ_discrete}
use leasewebassignment.Base.{ℕ, zero, suc, ◌+◌, ◌≤◌, ◌<◌, Bool, true, false, ◌≡◌, ◌≢◌, refl, arith}
use mathlib.Core.Logic.{ite, if_pos, if_neg}

-- thread `i` is now at `a`
abbrev pub move_thread {ℓ} : {A : Type ℓ} → (ℕ → A) → ℕ → A → ℕ → A
move_thread places i a j = ite (ℕ_discrete i j) a (places j)

module _ {ℓ} {A : Type ℓ} (place : ℕ → A) where
  pub move_thread_here : (i : ℕ) (a : A) {j : ℕ} → i ≡ j → move_thread place i a j ≡ a
  move_thread_here i a {j} same = if_pos (ℕ_discrete i j) same a (place j)

  pub move_thread_there : (i : ℕ) (a : A) {j : ℕ} → i ≢ j → move_thread place i a j ≡ place j
  move_thread_there i a {j} other = if_neg (ℕ_discrete i j) other a (place j)

abbrev pub bit : Bool → ℕ
bit true = 1
bit false = 0

module _ {ℓ} {A : Type ℓ} (test : A → Bool) where
  -- how many of the first `n` threads pass the test
  pub count : ℕ → (ℕ → A) → ℕ
  count zero place = 0
  count (suc n) place = bit (test (place n)) + count n place

  count-same :
      (n : ℕ) (place : ℕ → A) (i : ℕ) (a : A)
      → n ≤ i
      → count n (move_thread place i a) ≡ count n place
  unfolding count
  count-same zero place i a h = refl
  count-same (suc n) place i a h = ground (arith, count-same n place i a)

  pub count-move_thread :
      (n : ℕ) (place : ℕ → A) (i : ℕ) (a : A)
      → i < n
      → bit (test (place i)) + count n (move_thread place i a) ≡ bit (test a) + count n place
  unfolding count
  count-move_thread zero place i a h = absurd (omega arith)
  count-move_thread (suc n) place i a h = elim (dec_lt i n) [
    | yes below ↦ ground (arith, count-move_thread n place i a below)
    | no last ↦ ground (arith, count-same n place i a)
  ]

  pub bit-count : (n : ℕ) (place : ℕ → A) (i : ℕ) → i < n → bit (test (place i)) ≤ count n place
  unfolding count
  bit-count zero place i h = absurd (omega arith)
  bit-count (suc n) place i h = elim (dec_lt i n) [
    | yes below ↦ ground (arith, bit-count n place i below)
    | no last ↦ ground arith
  ]

  -- two threads
  bits-count :
      (n : ℕ) (place : ℕ → A) (i j : ℕ)
      → i < n
      → j < i
      → bit (test (place i)) + bit (test (place j)) ≤ count n place
  unfolding count
  bits-count zero place i j h k = absurd (omega arith)
  bits-count (suc n) place i j h k = elim (dec_lt i n) [
    | yes below ↦ ground (arith, bits-count n place i j below k)
    | no last ↦ ground (arith, bit-count n place j)
  ]

  pub two_bits-count :
      (n : ℕ) (place : ℕ → A) (i j : ℕ)
      → i < n
      → j < n
      → i ≢ j
      → bit (test (place i)) + bit (test (place j)) ≤ count n place
  two_bits-count n place i j h k other = elim (dec_lt j i) [
    | yes less ↦ bits-count n place i j h less
    | no not_less ↦ omega (arith, other, not_less, bits-count n place j i k (omega arith))
  ]

  pub count-zero : (n : ℕ) (place : ℕ → A) → ((i : ℕ) → test (place i) ≡ false) → count n place ≡ 0
  unfolding count
  count-zero zero place h = refl
  count-zero (suc n) place h = ground (arith, count-zero n place h, h n)
