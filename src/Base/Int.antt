-- ===== src/Base/Int.antt =====
-- Signed integers over the native numbers, and Go's `int` of 64 bits: a value is an integer of
-- [-2^63, 2^63), and an operation wraps its result round.
use Prim.Native.Nat.{ℕ, suc, ◌+◌, ◌-◌, ◌*◌, ◌%◌, ◌^◌, ◌≤◌, ◌<◌}
use mathlib.Core.Path.{◌≡◌}
use mathlib.Core.Bool.{Bool}
use native.Mathlib.Omega.{arith}
use leasewebassignment.Base.Tests.{ltb, leb, if◌then◌else◌}

-- `negsuc n` is -(n + 1).
pub data ℤ : Type 0 where
  pos : ℕ → ℤ
  negsuc : ℕ → ℤ

abbrev pub pos_part : ℤ → ℕ
pos_part (pos n) = n
pos_part (negsuc n) = 0

abbrev pub neg_part : ℤ → ℕ
neg_part (pos n) = 0
neg_part (negsuc n) = suc n

-- a - b, as an integer.
abbrev pub sub_ℕ : ℕ → ℕ → ℤ
sub_ℕ a b = if leb b a then pos (a - b) else negsuc (b - a - 1)

infixl 65 ◌+ℤ◌
unfoldable pub ◌+ℤ◌ : ℤ → ℤ → ℤ
a +ℤ b = sub_ℕ (pos_part a + pos_part b) (neg_part a + neg_part b)

infixl 70 ◌*ℤ◌
unfoldable pub ◌*ℤ◌ : ℤ → ℤ → ℤ
a *ℤ b =
    sub_ℕ (pos_part a * pos_part b + neg_part a * neg_part b)
      (pos_part a * neg_part b + neg_part a * pos_part b)

infix 50 ◌≤ℤ◌ ◌<ℤ◌
abbrev pub ◌≤ℤ◌ : ℤ → ℤ → Type 0
a ≤ℤ b = pos_part a + neg_part b ≤ pos_part b + neg_part a

abbrev pub ◌<ℤ◌ : ℤ → ℤ → Type 0
a <ℤ b = pos_part a + neg_part b < pos_part b + neg_part a

abbrev pub ltb_ℤ : ℤ → ℤ → Bool
ltb_ℤ a b = ltb (pos_part a + neg_part b) (pos_part b + neg_part a)

abbrev pub leb_ℤ : ℤ → ℤ → Bool
leb_ℤ a b = leb (pos_part a + neg_part b) (pos_part b + neg_part a)

abbrev pub int_half : ℕ
int_half = 2 ^ 63

abbrev pub int_mod : ℕ
int_mod = 2 ^ 64

-- The `int` with a given bit pattern.
abbrev pub of_bits : ℕ → ℤ
of_bits u = if ltb u int_half then pos u else negsuc (int_mod - u - 1)

-- The `int` that an operation leaves, where its exact result is the given integer.
unfoldable pub wrap : ℤ → ℤ
wrap (pos n) = of_bits (n % int_mod)
wrap (negsuc n) = of_bits (int_mod - 1 - n % int_mod)

abbrev pub IsInt : ℤ → Type 0
IsInt (pos n) = n < int_half
IsInt (negsuc n) = n < int_half

-- `a + b` on `int`.
unfoldable pub add_int : ℤ → ℤ → ℤ
unfolding ◌+ℤ◌ wrap
add_int a b = wrap (a +ℤ b)

-- `a * b` on `int`.
unfoldable pub mul_int : ℤ → ℤ → ℤ
unfolding ◌*ℤ◌ wrap
mul_int a b = wrap (a *ℤ b)

pub wrap-IsInt : (z : ℤ) → IsInt (wrap z)
unfolding wrap
wrap-IsInt (pos n) = ground arith
wrap-IsInt (negsuc n) = ground arith

pub wrap_of_IsInt : (z : ℤ) → IsInt z → wrap z ≡ z
unfolding wrap
wrap_of_IsInt (pos n) h = ground arith
wrap_of_IsInt (negsuc n) h = ground arith

pub mul_int-pos : (a b : ℕ) → a * b < int_half → mul_int (pos a) (pos b) ≡ pos (a * b)
unfolding mul_int
mul_int-pos a b h = ground arith

pub mul_int-IsInt : (a b : ℤ) → IsInt (mul_int a b)
unfolding mul_int
mul_int-IsInt a b = wrap-IsInt (a *ℤ b)

pub add_int-pos : (a b : ℕ) → a + b < int_half → add_int (pos a) (pos b) ≡ pos (a + b)
unfolding add_int
add_int-pos a b h = ground arith
