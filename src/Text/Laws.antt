-- ===== src/Text/Laws.antt =====
-- Equality, prefixes and suffixes of byte strings.
use mathlib.Core.List.{reverse-append, reverse-reverse}
use mathlib.Core.Option
use leasewebassignment.Base.{
  true, [], ◌∷◌, ◌++◌, reverse, some, ◌≡◌, refl, sym, ap, ◌∙◌, ◌↔◌, arith, Option-cases, inl, inr,
}
use leasewebassignment.Text.{Bytes, same, cut_prefix, cut_suffix, contains}

pub same_iff : (a b : Bytes) → (same a b ≡ true) ↔ (a ≡ b)
unfolding same
same_iff (x ∷ a) (y ∷ b) = ground (arith, same_iff a b)
same_iff _ _ = ground arith

pub same_self : (a : Bytes) → same a a ≡ true
same_self a = (same_iff a a).1 refl

pub cut_prefix-append : (p r : Bytes) → cut_prefix (p ++ r) p ≡ some r
unfolding cut_prefix
cut_prefix-append [] r = refl
cut_prefix-append (x ∷ p) r = ground (arith, cut_prefix-append p r)

-- What is left is the text behind the prefix.
pub cut_prefix-eq-some : (s p : Bytes) {r : Bytes} → cut_prefix s p ≡ some r → s ≡ p ++ r
unfolding cut_prefix
cut_prefix-eq-some s [] h = cc
cut_prefix-eq-some [] (x ∷ p) h = cc
cut_prefix-eq-some (y ∷ s) (x ∷ p) {r} h = ground (arith, cut_prefix-eq-some s p {r = r})

pub cut_suffix-append : (r p : Bytes) → cut_suffix (r ++ p) p ≡ some r
unfolding cut_suffix
cut_suffix-append r p =
    ap (λ t. Option.map reverse (cut_prefix t (reverse p))) (reverse-append r p)
    ∙ ap (Option.map reverse) (cut_prefix-append (reverse p) (reverse r))
    ∙ ap some (reverse-reverse r)

-- What is left is the text before the suffix.
pub cut_suffix-eq-some : (s p : Bytes) {r : Bytes} → cut_suffix s p ≡ some r → s ≡ r ++ p
unfolding cut_suffix
cut_suffix-eq-some s p {r} h =
    let (q, cut, same) = (Option.map-eq-some_iff _ _).0 h in
    sym (reverse-reverse s)
    ∙ ap reverse (cut_prefix-eq-some (reverse s) (reverse p) cut)
    ∙ reverse-append (reverse p) q
    ∙ rw (same, reverse-reverse p)

-- `contains` finds every part of a text.
pub contains-append : (a sub b : Bytes) → contains (a ++ (sub ++ b)) sub ≡ true
unfolding contains
contains-append [] [] [] = refl
contains-append [] [] (x ∷ b) = refl
contains-append [] (x ∷ sub) b = ground (arith, cut_prefix-append (x ∷ sub) b)
contains-append (x ∷ a) sub b = ground (arith, contains-append a sub b)

-- ... and nothing else.
pub contains-parts : (s sub : Bytes) → contains s sub ≡ true → (a b : Bytes) × (s ≡ a ++ (sub ++ b))
unfolding contains
contains-parts [] [] h = ([], [], refl)
contains-parts [] (x ∷ sub) h = cc
contains-parts (c ∷ s) sub h = elim (Option-cases (cut_prefix (c ∷ s) sub)) [
  | inr (r, cut) ↦ ([], r, cut_prefix-eq-some (c ∷ s) sub cut)
  | inl missed ↦ let (a, b, e) = contains-parts s sub (rw missed at h) in (c ∷ a, b, ap (◌∷◌ c) e)
]
