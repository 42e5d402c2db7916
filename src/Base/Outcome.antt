-- ===== src/Base/Outcome.antt =====
-- Exceptions as values: `err` carries the text that `what()` returns.
use Prim.Native.Nat.{ℕ}
use mathlib.Core.Path.{◌≡◌, refl}
use mathlib.Core.Logic.{◌⊎◌, inl, inr}
use mathlib.Core.List.{List}
use mathlib.Core.Bool.{Bool, true, false}

pub data Result {ℓ} (A : Type ℓ) : Type ℓ where
  ok : A → Result A
  err : List ℕ → Result A

-- `if (bad) throw ...`
abbrev pub throw_if : Bool → List ℕ → Result (Unit {0})
throw_if false what = ok tt
throw_if true what = err what

-- What follows a call that may throw.
infixl 5 ◌>>=◌
abbrev pub ◌>>=◌ {ℓ} : {A B : Type ℓ} → Result A → (A → Result B) → Result B
err what >>= next = err what
ok value >>= next = next value

-- What follows a check.
infixl 5 ◌>>◌
abbrev pub ◌>>◌ : {B : Type 0} → Result (Unit {0}) → Result B → Result B
check >> next = check >>= λ passed. next

pub throw_if-eq-ok : (b : Bool) (e : List ℕ) → throw_if b e ≡ ok tt → b ≡ false
throw_if-eq-ok true e h = cc
throw_if-eq-ok false e h = refl

-- A result was returned, so nothing threw on the way.
pub >>=-eq-ok {ℓ} :
    {A B : Type ℓ} (first : Result A) (next : A → Result B) {result : B}
    → (first >>= next) ≡ ok result
    → (value : A) × (first ≡ ok value) × (next value ≡ ok result)
>>=-eq-ok (err what) next returned = cc
>>=-eq-ok (ok value) next returned = (value, refl, returned)

pub Result-cases {ℓ} :
    {A : Type ℓ} (m : Result A) → ((a : A) × (m ≡ ok a)) ⊎ ((e : List ℕ) × (m ≡ err e))
Result-cases (ok a) = inl (a, refl)
Result-cases (err e) = inr (e, refl)

pub ok-injective {ℓ} : {A : Type ℓ} {a b : A} → ok a ≡ ok b → a ≡ b
ok-injective e = cc
