-- ===== src/Base/Faults.antt =====
-- Code that may stop: a failed `assert`, a call of `abort`, or an access outside a vector.
use mathlib.Core.Path.{◌≡◌, refl, ap}
use native.Mathlib.Omega.{arith}
use mathlib.Core.Logic.{◌⊎◌, inl, inr}
use mathlib.Core.Bool.{Bool, true, false}
use mathlib.Core.Option.{Option, none, some}

pub data Fault : Type 0 where
  assertion aborted bad_access : Fault

pub data Result {ℓ} (Value : Type ℓ) : Type ℓ where
  fault : Fault → Result Value
  ok : Value → Result Value

module _ {ℓ κ} {Value : Type ℓ} {Next : Type κ} where
  infixl 5 ◌>>=◌
  abbrev pub ◌>>=◌ : Result Value → (Value → Result Next) → Result Next
  fault why >>= rest = fault why
  ok value >>= rest = rest value

-- One statement, then the rest of the function.
module _ {κ} {Next : Type κ} where
  infixl 5 ◌>>◌
  abbrev pub ◌>>◌ : Result (Unit {0}) → Result Next → Result Next
  fault why >> rest = fault why
  ok done >> rest = rest

-- `assert(b)`
abbrev pub check : Bool → Result (Unit {0})
check true = ok tt
check false = fault Fault.assertion

-- An iterator or pointer that must not be null: `assert(p)`.
abbrev pub non_null {ℓ} : {A : Type ℓ} → Option A → Result A
non_null none = fault Fault.assertion
non_null (some a) = ok a

-- A read of `v[i]`; outside the vector it is undefined behaviour.
abbrev pub access {ℓ} : {A : Type ℓ} → Option A → Result A
access none = fault Fault.bad_access
access (some a) = ok a

-- What succeeds in two parts succeeds in the first, and the second takes its result.
module _ {ℓ κ} {Value : Type ℓ} {Next : Type κ} where
  pub bind-ok :
      (r : Result Value) (rest : Value → Result Next) (result : Next)
      → (r >>= rest) ≡ ok result
      → (value : Value) × (r ≡ ok value) × (rest value ≡ ok result)
  bind-ok (ok value) rest result h = (value, refl, h)
  bind-ok (fault why) rest result h = absurd (ground (arith, h))

pub Result-cases {ℓ} :
    {A : Type ℓ} (r : Result A) → ((a : A) × (r ≡ ok a)) ⊎ ((why : Fault) × (r ≡ fault why))
Result-cases (ok a) = inl (a, refl)
Result-cases (fault why) = inr (why, refl)

pub ok-injective {ℓ} : {A : Type ℓ} (a b : A) → ok a ≡ ok b → a ≡ b
ok-injective a b h = ground (arith, h)

-- Two results that are pairs.
pub ok-pair {ℓ κ} :
    {A : Type ℓ} {B : Type κ} (a a' : A) (b b' : B)
    → ◌≡◌ {A = Result (A × B)} (ok (a, b)) (ok (a', b'))
    → (a ≡ a') × (b ≡ b')
ok-pair {A = A} {B = B} a a' b b' h =
    let e : ◌≡◌ {A = A × B} (a, b) (a', b') = ok-injective (a, b) (a', b') h in
    (ap (λ (p : A × B). p.0) e, ap (λ (p : A × B). p.1) e)
