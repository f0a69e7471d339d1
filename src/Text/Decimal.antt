-- ===== src/Text/Decimal.antt =====
-- `strconv.Atoi` on a Go `int` of 64 bits, and the runs of digits that the patterns `\d+` match.
pub mod Laws
use leasewebassignment.Base.{
  ℕ, zero, suc, ◌+◌, ◌-◌, ◌*◌, ◌/◌, ◌%◌, Bool, [], ◌∷◌, ltb, leb, ◌==◌, within, if◌then◌else◌,
  Result, ok, err, ◌>>=◌,
}
use leasewebassignment.Base.Int.{ℤ, pos, sub_ℕ, int_half, int_mod}
use leasewebassignment.Text.{Bytes}

-- `strconv.ErrSyntax` and `strconv.ErrRange`
pub data NumError : Type 0 where
  syntax range : NumError

abbrev pub is_digit : ℕ → Bool
is_digit c = within b'0' b'9' c

-- The number that digits stand for, behind those that stand for `n`.
abbrev pub value_from : ℕ → Bytes → ℕ
value_from n [] = n
value_from n (c ∷ s) = value_from (n * 10 + (c - b'0')) s

abbrev pub value : Bytes → ℕ
value s = value_from 0 s

-- The digits at the head of a text, and what follows them.
unfoldable pub digits : Bytes → Bytes
digits [] = []
digits (c ∷ s) = if is_digit c then c ∷ digits s else []

unfoldable pub after_digits : Bytes → Bytes
after_digits [] = []
after_digits (c ∷ s) = if is_digit c then after_digits s else c ∷ s

-- the loop of `strconv.ParseUint` in base 10
unfoldable pub scan_uint : ℕ → Bytes → Result NumError ℕ
scan_uint n [] = ok n
scan_uint n (c ∷ s) =
    let n' : ℕ = n * 10 + (c - b'0') in
    let rest = scan_uint n' s in
    if is_digit c then (if ltb n' int_mod then rest else err range) else err syntax

unfoldable pub parse_uint : Bytes → Result NumError ℕ
unfolding scan_uint
parse_uint [] = err syntax
parse_uint (c ∷ s) = scan_uint 0 (c ∷ s)

unfoldable pub atoi : Bytes → Result NumError ℤ
unfolding parse_uint
atoi [] = err syntax
atoi (c ∷ s) =
    if c == b'-'
    then (parse_uint s >>= λ n. if leb n int_half then ok (sub_ℕ 0 n) else err range)
    else (parse_uint (if c == b'+' then s else c ∷ s) >>= λ n.
        if ltb n int_half then ok (pos n) else err range)

-- `%d`: the digits of a number, put in front of `acc`. The fuel is a bound on the digits.
decimal_from : ℕ → ℕ → Bytes → Bytes
decimal_from zero n acc = acc
decimal_from (suc fuel) n acc =
    let acc' : Bytes = (b'0' + n % 10) ∷ acc in
    let rest = decimal_from fuel (n / 10) acc' in if ltb n 10 then acc' else rest

unfoldable pub decimal : ℕ → Bytes
unfolding decimal_from
decimal n = decimal_from (suc n) n []
