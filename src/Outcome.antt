-- ===== src/Outcome.antt =====
-- How a call may end: with a value, with a C++ exception, outside what C++ defines (`fault`), or
-- never (`spin`).
use sabot.Prelude.{◌≡◌, refl}

pub data Exception : Type 0 where
  plain_exception runtime_error logic_error invalid_argument out_of_range : Exception

pub data Outcome {ℓ} (A : Type ℓ) : Type ℓ where
  returned : A → Outcome A
  threw : Exception → Outcome A
  fault spin : Outcome A

infixl 5 ◌>>=◌
abbrev pub ◌>>=◌ {ℓ κ} : {A : Type ℓ} {B : Type κ} → Outcome A → (A → Outcome B) → Outcome B
returned a >>= f = f a
threw e >>= f = threw e
fault >>= f = fault
spin >>= f = spin

-- The call ends, inside what C++ defines.
abbrev pub Halts {ℓ} : {A : Type ℓ} → Outcome A → Type 0
Halts (returned a) = Unit {0}
Halts (threw e) = Unit {0}
Halts fault = ⊥
Halts spin = ⊥

pub bind-Halts {ℓ κ} :
    {A : Type ℓ} {B : Type κ} (m : Outcome A) (f : A → Outcome B)
    → Halts m
    → ((a : A) → m ≡ returned a → Halts (f a))
    → Halts (m >>= f)
bind-Halts (returned a) f h next = next a refl
bind-Halts (threw e) f h next = tt
bind-Halts fault f h next = h
bind-Halts spin f h next = h

-- Inversion of a chain that returns.
pub bind-eq-returned {ℓ κ} :
    {A : Type ℓ} {B : Type κ} (m : Outcome A) (f : A → Outcome B) {b : B}
    → (m >>= f) ≡ returned b
    → (a : A) × (m ≡ returned a) × (f a ≡ returned b)
bind-eq-returned (returned a) f h = (a, refl, h)
bind-eq-returned (threw e) f h = cc
bind-eq-returned fault f h = cc
bind-eq-returned spin f h = cc
