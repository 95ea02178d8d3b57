-- ===== src/Prelude/Result.antt =====
-- Fallible code: a value or the exception that was raised, with the chain of such steps.
use mathlib.Core.Path.{◌≡◌, refl}
use mathlib.Core.Logic.{◌⊎◌, inl, inr}

module _ {ℓ} (E : Type ℓ) where
  pub data Result (A : Type ℓ) : Type ℓ where
    ok : A → Result A
    err : E → Result A

infixl 5 ◌>>=◌
abbrev pub ◌>>=◌ {ℓ} : {E A B : Type ℓ} → Result E A → (A → Result E B) → Result E B
ok a >>= f = f a
err e >>= f = err e

pub Result-cases {ℓ} :
    {E A : Type ℓ} (r : Result E A) → ((e : E) × (r ≡ err e)) ⊎ ((a : A) × (r ≡ ok a))
Result-cases (ok a) = inr (a, refl)
Result-cases (err e) = inl (e, refl)

-- Inversion of a step that came to a value.
pub eq_ok_of_bind {ℓ} :
    {E A B : Type ℓ} (m : Result E A) (f : A → Result E B) (b : B)
    → (m >>= f) ≡ ok b
    → (a : A) × (m ≡ ok a) × (f a ≡ ok b)
eq_ok_of_bind (ok a) f b h = (a, refl, h)
eq_ok_of_bind (err e) f b h = cc

pub eq_of_ok_eq_ok {ℓ} : {E A : Type ℓ} (a b : A) → ◌≡◌ {A = Result E A} (ok a) (ok b) → a ≡ b
eq_of_ok_eq_ok a b h = cc
