-- ===== src/Text/Space/Laws.antt =====
-- Text with no white space at its ends.
use mathlib.Core.List.{reverse-reverse}
use leasewebassignment.Base.{
  ℕ, Bool, true, false, leb, Bool-cases, inl, inr, [], ◌∷◌, reverse, ◌≡◌, refl, ap, ◌∙◌, arith,
  within,
}
use leasewebassignment.Text.{Bytes}
use leasewebassignment.Text.Space.{
  is_space, is_space2, is_space3, front_width, back_width, trim_by, trim_space,
}

-- A printing character of ASCII.
abbrev pub is_graphic : ℕ → Bool
is_graphic c = within 33 126 c

-- The text is empty, or its first character prints.
abbrev pub StartsGraphic : Bytes → Type 0
StartsGraphic [] = Unit
StartsGraphic (c ∷ _) = is_graphic c ≡ true

trim_front : (s : Bytes) → StartsGraphic s → trim_by front_width 0 s ≡ s
unfolding trim_by front_width is_space is_space2 is_space3
trim_front [] h = refl
trim_front (a ∷ []) h = ground arith
trim_front (a ∷ b ∷ []) h = ground arith
trim_front (a ∷ b ∷ c ∷ s) h = ground arith

not_is_space2 : (b a : ℕ) → is_graphic a ≡ true → is_space2 b a ≡ false
unfolding is_space2
not_is_space2 b a h = ground arith

not_is_space3 : (c b a : ℕ) → is_graphic a ≡ true → is_space3 c b a ≡ false
unfolding is_space3
not_is_space3 c b a h = elim (Bool-cases (leb 0x80 a)) [
  | inl high ↦ absurd (ground arith)
  | inr low ↦ grind arith
]

trim_back : (s : Bytes) → StartsGraphic s → trim_by back_width 0 s ≡ s
unfolding trim_by back_width is_space
trim_back [] h = refl
trim_back (a ∷ []) h = ground arith
trim_back (a ∷ b ∷ []) h = ground (arith, not_is_space2 b a h)
trim_back (a ∷ b ∷ c ∷ s) h = ground (arith, not_is_space2 b a h, not_is_space3 c b a h)

pub trim_space_lem : (s : Bytes) → StartsGraphic s → StartsGraphic (reverse s) → trim_space s ≡ s
unfolding trim_space
trim_space_lem s h k =
    ap (λ t. reverse (trim_by back_width 0 (reverse t))) (trim_front s h)
    ∙ ap reverse (trim_back (reverse s) k)
    ∙ reverse-reverse s
