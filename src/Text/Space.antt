-- ===== src/Text/Space.antt =====
-- `strings.TrimSpace`: the white space of Unicode, in UTF-8, off both ends.
pub mod Laws
use leasewebassignment.Base.{
  ℕ, zero, suc, Bool, ◌&&◌, ◌||◌, [], ◌∷◌, reverse, ◌==◌, within, if◌then◌else◌,
}
use leasewebassignment.Text.{Bytes}

-- '\t', '\n', '\v', '\f', '\r', ' '
unfoldable pub is_space : ℕ → Bool
is_space c = within 9 13 c || c == b' '

-- U+0085 and U+00A0
is_space2 : ℕ → ℕ → Bool
is_space2 a b = a == 0xC2 && (b == 0x85 || b == 0xA0)

-- U+1680, U+2000 to U+200A, U+2028, U+2029, U+202F, U+205F and U+3000
is_space3 : ℕ → ℕ → ℕ → Bool
is_space3 a b c =
    (a == 0xE1 && b == 0x9A && c == 0x80)
    || (a == 0xE2 && b == 0x80 && (within 0x80 0x8A c || c == 0xA8 || c == 0xA9 || c == 0xAF))
    || (a == 0xE2 && b == 0x81 && c == 0x9F)
    || (a == 0xE3 && b == 0x80 && c == 0x80)

-- The number of bytes of the white space character that starts a text, 0 for another or none.
front_width : Bytes → ℕ
front_width [] = 0
front_width (a ∷ []) = if is_space a then 1 else 0
front_width (a ∷ b ∷ []) = if is_space a then 1 else if is_space2 a b then 2 else 0
front_width (a ∷ b ∷ c ∷ _) =
    if is_space a then 1 else if is_space2 a b then 2 else if is_space3 a b c then 3 else 0

-- The same for the character that ends a text, whose bytes stand in reverse order.
back_width : Bytes → ℕ
back_width [] = 0
back_width (a ∷ []) = if is_space a then 1 else 0
back_width (a ∷ b ∷ []) = if is_space a then 1 else if is_space2 b a then 2 else 0
back_width (a ∷ b ∷ c ∷ _) =
    if is_space a then 1 else if is_space2 b a then 2 else if is_space3 c b a then 3 else 0

-- `skip` more bytes belong to a character that is dropped.
trim_by : (Bytes → ℕ) → ℕ → Bytes → Bytes
trim_by width skip [] = []
trim_by width (suc skip) (_ ∷ s) = trim_by width skip s
trim_by width zero (c ∷ s) = elim (width (c ∷ s)) [ zero ↦ c ∷ s | suc skip ↦ trim_by width skip s ]

unfoldable pub trim_space : Bytes → Bytes
unfolding trim_by front_width back_width is_space is_space2 is_space3
trim_space s = reverse (trim_by back_width 0 (reverse (trim_by front_width 0 s)))
