-- ===== src/Base/Results.antt =====
-- Go's pair of a value and an error, as one result.
use mathlib.Core.Path.{◌≡◌, refl}
use mathlib.Core.Logic.{◌⊎◌, inl, inr}

pub data Result {ℓ κ} (E : Type ℓ) (A : Type κ) : Type (ℓ ⊔ κ) where
  ok : A → Result E A
  err : E → Result E A

infixl 5 ◌>>=◌
abbrev pub ◌>>=◌ {ℓ κ ι} :
    {E : Type ℓ} {A : Type κ} {B : Type ι} → Result E A → (A → Result E B) → Result E B
err why >>= next = err why
ok got >>= next = next got

-- Another error in place of the one returned.
abbrev pub map_err {ℓ κ ι} :
    {E : Type ℓ} {G : Type κ} {A : Type ι} → (E → G) → Result E A → Result G A
map_err w (ok a) = ok a
map_err w (err e) = err (w e)

pub Result-cases {ℓ κ} :
    {E : Type ℓ} {A : Type κ} (r : Result E A) → ((a : A) × (r ≡ ok a)) ⊎ ((e : E) × (r ≡ err e))
Result-cases (ok a) = inl (a, refl)
Result-cases (err e) = inr (e, refl)

-- A chain that succeeds has steps that succeed.
pub >>=-eq-ok {ℓ κ ι} :
    {E : Type ℓ} {A : Type κ} {B : Type ι} (step : Result E A) (next : A → Result E B) {out : B}
    → (step >>= next) ≡ ok out
    → (got : A) × (step ≡ ok got) × (next got ≡ ok out)
>>=-eq-ok (err why) next done = cc
>>=-eq-ok (ok got) next done = (got, refl, done)

pub ok-injective {ℓ κ} :
    {E : Type ℓ} {A : Type κ} {a b : A} → ◌≡◌ {A = Result E A} (ok a) (ok b) → a ≡ b
ok-injective e = cc

pub err-injective {ℓ κ} :
    {E : Type ℓ} {A : Type κ} {a b : E} → ◌≡◌ {A = Result E A} (err a) (err b) → a ≡ b
err-injective e = cc
