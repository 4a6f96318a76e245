-- ===== src/Prelude/Results.antt =====
-- A computation that returns a value or raises an exception of type `E`.
use mathlib.Core.Path.{◌≡◌, refl}
use native.Mathlib.Omega.{arith}
use mathlib.Core.Bool.{Bool, true, false}
use mathlib.Core.Logic.{◌⊎◌, inl, inr}

pub data Result {ℓ κ} (E : Type κ) (A : Type ℓ) : Type (ℓ ⊔ κ) where
  ok : A → Result E A
  raise : E → Result E A

infixl 5 ◌>>=◌ ◌>>◌
abbrev pub ◌>>=◌ {ℓ κ μ} :
    {E : Type κ} {A : Type ℓ} {B : Type μ} → Result E A → (A → Result E B) → Result E B
ok a >>= f = f a
raise e >>= f = raise e

abbrev pub ◌>>◌ {ℓ κ} : {E : Type κ} {B : Type ℓ} → Result E (Unit {0}) → Result E B → Result E B
m >> k = m >>= λ _. k

-- `if bad: raise e`
abbrev pub raise_if {κ} : {E : Type κ} → Bool → E → Result E (Unit {0})
raise_if true e = raise e
raise_if false e = ok tt

pub Result-cases {ℓ κ} :
    {E : Type κ} {B : Type ℓ} (r : Result E B) → ((b : B) × (r ≡ ok b)) ⊎ ((e : E) × (r ≡ raise e))
Result-cases (ok b) = inl (b, refl)
Result-cases (raise e) = inr (e, refl)

-- A computation that went past its tests has its value.
pub checks-ok {ℓ κ} :
    {E : Type κ} {B : Type ℓ} (checks : Result E (Unit {0})) (v w : B)
    → (checks >> ok v) ≡ ok w
    → v ≡ w
checks-ok (ok u) v w h = ground arith
checks-ok (raise e) v w h = absurd (ground arith)
