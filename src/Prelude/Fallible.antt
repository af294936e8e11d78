-- ===== src/Prelude/Fallible.antt =====
-- Chains of fallible steps: `none` is the error return of the C code.
use mathlib.Core.Path.{◌≡◌, refl}
use mathlib.Core.Option.{Option, none, some}

infixl 5 ◌>>=◌
abbrev pub ◌>>=◌ {ℓ κ} : {A : Type ℓ} {B : Type κ} → Option A → (A → Option B) → Option B
none >>= f = none
some a >>= f = f a

-- A chain succeeds only if its first step does.
pub >>=-eq-some {ℓ κ} :
    {A : Type ℓ} {B : Type κ} (m : Option A) (f : A → Option B) {b : B}
    → (m >>= f) ≡ some b
    → (a : A) × (m ≡ some a) × (f a ≡ some b)
>>=-eq-some none f h = cc
>>=-eq-some (some a) f h = (a, refl, h)

-- The same, to go on with the value of the first step.
pub >>=-elim {ℓ κ μ} :
    {A : Type ℓ} {B : Type κ} {C : Type μ} (m : Option A) (f : A → Option B) {b : B}
    → (m >>= f) ≡ some b
    → ((a : A) → m ≡ some a → f a ≡ some b → C)
    → C
>>=-elim none f h k = cc
>>=-elim (some a) f h k = k a refl h

pub some_pair-first {ℓ κ} :
    {A : Type ℓ} {B : Type κ} {p : A × B} {c : A} {d : B} → some p ≡ some (c, d) → p.0 ≡ c
some_pair-first h = cc

pub some_inj {ℓ} : {A : Type ℓ} {a b : A} → some a ≡ some b → a ≡ b
some_inj h = cc
