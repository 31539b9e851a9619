-- ===== src/Base/Results.antt =====
-- Calls that return or raise: the exceptions are values of a type of errors of each component.
use mathlib.Core.Path.{◌≡◌, refl, ap}
use mathlib.Core.Logic.{◌⊎◌, inl, inr}
use mathlib.Core.Bool.{Bool, true, false}
use mathlib.Core.Option.{Option, none, some}
use native.Mathlib.Omega.{arith}

pub data Result {ℓ} (E : Type ℓ) (A : Type ℓ) : Type ℓ where
  ok : A → Result E A
  err : E → Result E A

infixl 5 ◌>>=◌ ◌>>◌
abbrev pub ◌>>=◌ {ℓ} : {E A B : Type ℓ} → Result E A → (A → Result E B) → Result E B
err raised >>= next = err raised
ok value >>= next = next value

abbrev pub ◌>>◌ {ℓ} : {E B : Type ℓ} → Result E (Unit {ℓ}) → Result E B → Result E B
err raised >> next = err raised
ok _ >> next = next

-- `if not test: raise e`
abbrev pub require {ℓ} : {E : Type ℓ} → Bool → E → Result E (Unit {ℓ})
require true e = ok tt
require false e = err e

-- `if value is None: raise e`
abbrev pub or_raise {ℓ} : {E A : Type ℓ} → Option A → E → Result E A
or_raise none e = err e
or_raise (some a) e = ok a

pub Result-cases {ℓ} :
    {E A : Type ℓ} (m : Result E A) → ((a : A) × (m ≡ ok a)) ⊎ ((e : E) × (m ≡ err e))
Result-cases (ok a) = inl (a, refl)
Result-cases (err e) = inr (e, refl)

-- A chain that returns has gone through each of its calls.
module _ {ℓ} {E : Type ℓ} where
  pub bind_ok :
      {A B : Type ℓ} (m : Result E A) (next : A → Result E B) (b : B)
      → (m >>= next) ≡ ok b
      → (a : A) × (m ≡ ok a) × (next a ≡ ok b)
  bind_ok (ok a) next b h = (a, refl, h)
  bind_ok (err e) next b h = absurd (ground arith)

  pub then_ok :
      {B : Type ℓ} (m : Result E (Unit {ℓ})) (next : Result E B) (b : B)
      → (m >> next) ≡ ok b
      → (m ≡ ok tt) × (next ≡ ok b)
  then_ok (ok u) next b h = (refl, h)
  then_ok (err e) next b h = absurd (ground arith)

  pub require_ok :
      {B : Type ℓ} (test : Bool) (e : E) (next : Result E B) (b : B)
      → (require test e >> next) ≡ ok b
      → (test ≡ true) × (next ≡ ok b)
  require_ok true e next b h = (refl, h)
  require_ok false e next b h = absurd (ground arith)

pub ok_injective {ℓ} : {E A : Type ℓ} (a b : A) (m : Result E A) → m ≡ ok a → m ≡ ok b → a ≡ b
ok_injective a b m first second = ground arith

pub or_raise-some {ℓ} :
    {E A : Type ℓ} (e : E) (o : Option A) {a : A} → or_raise o e ≡ ok a → o ≡ some a
or_raise-some e none h = absurd (ground arith)
or_raise-some e (some b) {a} h = ap some (ok_injective b a (ok b) refl h)
