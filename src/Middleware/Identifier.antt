-- ===== src/Middleware/Identifier.antt =====
-- The identifier of a request. (internal/server/middleware/requestid.go)
use leasewebassignment.Base.{
  ℕ, ◌+◌, ◌*◌, ◌-◌, ◌/◌, ◌%◌, ltb, [], ◌∷◌, Option, none, some, ◌≡◌, refl, ap₂, arith,
  if◌then◌else◌,
}
use leasewebassignment.Text.{Bytes, codes}
use leasewebassignment.Middleware.{generate_request_id, hex_digit, hex_encode}

-- The bytes that a text of hexadecimal digits stands for.
abbrev digit_value : ℕ → ℕ
digit_value c = if ltb c b'a' then c - b'0' else (c - b'a') + 10

unfoldable pub unhex : Bytes → Bytes
unhex [] = []
unhex (high ∷ []) = []
unhex (high ∷ low ∷ rest) = (digit_value high * 16 + digit_value low) ∷ unhex rest

-- An identifier names the random bytes that it was made of, if there are any.
abbrev pub Identifies : Option Bytes → Bytes → Type 0
Identifies none id = id ≡ codes "unavailable"
Identifies (some bytes) id = unhex id ≡ bytes

digit_value-hex_digit : (n : ℕ) → digit_value (hex_digit n) ≡ n
digit_value-hex_digit n = ground arith

unhex-hex_encode : (bytes : Bytes) → unhex (hex_encode bytes) ≡ bytes
unfolding unhex hex_encode
unhex-hex_encode [] = refl
unhex-hex_encode (b ∷ bytes) =
    ap₂ (◌∷◌) (rw (digit_value-hex_digit (b / 16), digit_value-hex_digit (b % 16)) (omega arith))
      (unhex-hex_encode bytes)

pub generate_request_id-Identifies :
    (random : Option Bytes) → Identifies random (generate_request_id random)
unfolding generate_request_id
generate_request_id-Identifies none = refl
generate_request_id-Identifies (some bytes) = unhex-hex_encode bytes
