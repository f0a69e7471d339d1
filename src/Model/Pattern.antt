-- ===== src/Model/Pattern.antt =====
-- The regular expressions of the model as matchers. A run `\d+` is followed by no digit in any of
-- them, so the longest run is the only one that can match.
use leasewebassignment.Base.{
  ℕ, Bool, ◌&&◌, ◌||◌, [], ◌∷◌, ◌++◌, Option, none, some, ◌==◌, within, if◌then◌else◌, all,
}
use leasewebassignment.Base.Options.{◌>>=◌}
use leasewebassignment.Text.{Bytes, codes, is_empty, same, cut_prefix}
use leasewebassignment.Text.Decimal.{digits, after_digits}

-- `[A-Za-z0-9]`
abbrev pub is_alnum : ℕ → Bool
is_alnum c = within b'A' b'Z' c || within b'a' b'z' c || within b'0' b'9' c

-- `\d+`: the digits, and what follows
unfoldable pub number : Bytes → Option (Bytes × Bytes)
number s = if is_empty (digits s) then none else some (digits s, after_digits s)

-- `^(\d+)(GB)$`: the first group
unfoldable pub ram_pattern : Bytes → Option Bytes
unfolding number same
ram_pattern s = do (d, rest) ← number s; if same rest (codes "GB") then some d else none

pub record HddMatch : Type 0 where
  pub count : Bytes
  pub size : Bytes
  pub unit : Bytes
  pub label : Bytes

-- `(GB|TB)`
unfoldable pub unit_pattern : Bytes → Option (Bytes × Bytes)
unfolding cut_prefix
unit_pattern s = elim (cut_prefix s (codes "GB")) [
  | some rest ↦ some (codes "GB", rest)
  | none ↦ elim (cut_prefix s (codes "TB")) [ some rest ↦ some (codes "TB", rest) | none ↦ none ]
]

-- `^(\d+)x(\d+)(GB|TB)([A-Za-z0-9]+)$`
unfoldable pub hdd_pattern : Bytes → Option HddMatch
unfolding number unit_pattern cut_prefix
hdd_pattern s = do
  (count, s₁) ← number s
  s₂ ← cut_prefix s₁ (codes "x")
  (size, s₃) ← number s₂
  (unit, label) ← unit_pattern s₃
  if is_empty label
      then none
      else if all is_alnum label
      then some (record { count = count; size = size; unit = unit; label = label })
      else none

-- `\s` of package regexp
abbrev pub is_re_space : ℕ → Bool
is_re_space c = c == 9 || c == 10 || c == 12 || c == 13 || c == b' '

unfoldable pub after_spaces : Bytes → Bytes
after_spaces [] = []
after_spaces (c ∷ s) = if is_re_space c then after_spaces s else c ∷ s

-- `(?i)GB` at the head of a text
unfoldable pub gb_pattern : Bytes → Option Bytes
gb_pattern (g ∷ b ∷ _) =
    if (g == b'G' || g == b'g') && (b == b'B' || b == b'b') then some (g ∷ b ∷ []) else none
gb_pattern _ = none

-- `(?i)^\s*(\d+GB)`: the first group
unfoldable pub ram_family_pattern : Bytes → Option Bytes
ram_family_pattern s = do (d, rest) ← number (after_spaces s); gb ← gb_pattern rest; some (d ++ gb)
