-- ===== src/Common/Results.antt =====
-- Results of code that may throw, and the chains of such steps.
use mathlib.Core.Path.{◌≡◌, refl}
use mathlib.Core.Logic.{◌⊎◌, inl, inr}

-- The exceptions that the scripts can raise.
pub data Exception : Type 0 where
  uri_error : Exception
  type_error : Exception

pub data Outcome {ℓ} (A : Type ℓ) : Type ℓ where
  ok : A → Outcome A
  throw : Exception → Outcome A

infixl 5 ◌>>=◌
abbrev pub ◌>>=◌ {ℓ κ} : {A : Type ℓ} {B : Type κ} → Outcome A → (A → Outcome B) → Outcome B
ok a >>= f = f a
throw e >>= f = throw e

pub Outcome-cases {ℓ} :
    {A : Type ℓ} (r : Outcome A) → ((a : A) × (r ≡ ok a)) ⊎ ((e : Exception) × (r ≡ throw e))
Outcome-cases (ok a) = inl (a, refl)
Outcome-cases (throw e) = inr (e, refl)

-- A chain that does not throw: its first step has a value, and the rest goes on from it.
pub bind_inv {ℓ κ} :
    {A : Type ℓ} {B : Type κ} (m : Outcome A) (f : A → Outcome B) {b : B}
    → (m >>= f) ≡ ok b
    → (a : A) × (m ≡ ok a) × (f a ≡ ok b)
bind_inv (ok a) f h = (a, refl, h)
bind_inv (throw e) f h = cc

-- A chain that throws: its first step does, or a step of the rest.
pub bind_throws {ℓ κ} :
    {A : Type ℓ} {B : Type κ} (m : Outcome A) (f : A → Outcome B) {e : Exception}
    → (m >>= f) ≡ throw e
    → (m ≡ throw e) ⊎ ((a : A) × (m ≡ ok a) × (f a ≡ throw e))
bind_throws (ok a) f h = inr (a, refl, h)
bind_throws (throw e) f h = inl (cc)
