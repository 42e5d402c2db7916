-- ===== src/Base/Returned.antt =====
-- Calls on all entries of a list, and properties of what a function returns, if it does not throw.
use Prim.Native.Nat.{ℕ}
use mathlib.Core.Bool.{Bool, true, false, not}
use mathlib.Core.List.{List, [], ◌∷◌}
use mathlib.Core.Path.{◌≡◌, subst, refl}
use mathlib.Core.Logic.{◌↔◌}
use parser_framework.Base.Lists.{All, In, here, there}
use parser_framework.Base.Tests.{if◌then◌else◌}
use parser_framework.Base.Outcome.{Result, ok, err, throw_if, ◌>>=◌, ◌>>◌, >>=-eq-ok, ok-injective}

-- `for (const auto& entry : child) values.push_back(f(entry))`
unfoldable pub collect : {A B : Type 0} → (A → Result B) → List A → Result (List B)
collect f [] = ok []
collect f (x ∷ rest) = do y ← f x; ys ← collect f rest; ok (y ∷ ys)

-- A loop that throws at the first entry that is refused.
unfoldable pub for_all : {A : Type 0} → (A → Result (Unit {0})) → List A → Result (Unit {0})
for_all check [] = ok tt
for_all check (x ∷ rest) = do check x; for_all check rest

-- If there is a value, it has the property.
pub record Ensures {A : Type 0} (P : A → Type 0) (m : Result A) : Type 0 where
  pub at : (a : A) → m ≡ ok a → P a

pub Ensures-bind :
    {A B : Type 0} {P : B → Type 0} (m : Result A) (f : A → Result B)
    → ((a : A) → Ensures P (f a))
    → Ensures P (m >>= f)
Ensures-bind m f h = record { at = λ b e. let (a, p, q) = >>=-eq-ok m f e in (h a).at b q }

pub collect-Ensures :
    {A B : Type 0} (P : B → Type 0) (f : A → Result B)
    → ((x : A) → Ensures P (f x))
    → (xs : List A) → Ensures (All P) (collect f xs)
unfolding collect
collect-Ensures P f h [] = record { at = λ ys e. subst (All P) (ok-injective e) tt }
collect-Ensures P f h (x ∷ xs) = record {
  at = λ zs e.
      let (y, p, q) = >>=-eq-ok (f x) _ e in
      let (ys, r, t) = >>=-eq-ok (collect f xs) _ q in
      subst (All P) (ok-injective t) ((h x).at y p, (collect-Ensures P f h xs).at ys r);
}

-- Two functions that agree on the entries.
pub collect_cong :
    {A B : Type 0} (f g : A → Result B) (xs : List A)
    → ((x : A) → In x xs → f x ≡ g x)
    → collect f xs ≡ collect g xs
unfolding collect
collect_cong f g [] h = refl
collect_cong f g (x ∷ xs) h = rw (h x here, collect_cong f g xs (λ y i. h y (there i)))

pub Ensures-ok : {A : Type 0} {P : A → Type 0} (a : A) → P a → Ensures P (ok a)
Ensures-ok {P = P} a h = record { at = λ b e. subst P (ok-injective e) h }

pub Ensures-err : {A : Type 0} {P : A → Type 0} (what : List ℕ) → Ensures P (err what)
Ensures-err what = record { at = λ b e. cc e }

-- With what the first call returned.
pub Ensures-after :
    {A B : Type 0} {P : B → Type 0} (m : Result A) (f : A → Result B)
    → ((a : A) → m ≡ ok a → Ensures P (f a))
    → Ensures P (m >>= f)
Ensures-after m f h = record { at = λ b e. let (a, p, q) = >>=-eq-ok m f e in (h a p).at b q }

pub Ensures-if :
    {A : Type 0} {P : A → Type 0} (b : Bool) (x y : Result A)
    → (b ≡ true → Ensures P x)
    → (b ≡ false → Ensures P y)
    → Ensures P (if b then x else y)
Ensures-if true x y h k = h refl
Ensures-if false x y h k = k refl

-- A check that passed.
pub Ensures-check :
    {B : Type 0} {P : B → Type 0} (b : Bool) (what : List ℕ) (m : Result B)
    → (b ≡ false → Ensures P m)
    → Ensures P (throw_if b what >> m)
Ensures-check true what m h = record { at = λ b e. cc e }
Ensures-check false what m h = h refl

-- A check threw nothing.
abbrev pub Passes : Result (Unit {0}) → Type 0
Passes r = r ≡ ok tt

pub and_iff :
    {P Q : Type 0} (a b : Result (Unit {0}))
    → Passes a ↔ P
    → Passes b ↔ Q
    → Passes (a >> b) ↔ (P × Q)
and_iff (ok tt) b p q = (λ h. (p.0 refl, q.0 h), λ h. q.1 h.1)
and_iff (err e) b p q = (λ h. absurd (cc), λ h. absurd (cc (p.1 h.0)))

pub throw_if_iff : (b : Bool) (e : List ℕ) → Passes (throw_if (not b) e) ↔ (b ≡ true)
throw_if_iff true e = (λ h. refl, λ h. refl)
throw_if_iff false e = (λ h. absurd (cc), λ h. absurd (cc))

pub for_all_iff :
    {A : Type 0} (P : A → Type 0) (check : A → Result (Unit {0}))
    → ((x : A) → Passes (check x) ↔ P x)
    → (xs : List A) → Passes (for_all check xs) ↔ All P xs
unfolding for_all
for_all_iff P check each [] = (λ h. tt, λ h. refl)
for_all_iff P check each (x ∷ xs) = and_iff _ _ (each x) (for_all_iff P check each xs)

-- A result that is returned after a first call.
pub bind_iff :
    {A B : Type 0} (m : Result A) (f : A → Result B) (b : B)
    → ((m >>= f) ≡ ok b) ↔ ((a : A) × (m ≡ ok a) × (f a ≡ ok b))
bind_iff m f b = (>>=-eq-ok m f, λ (a, p, q). rw p q)

-- Two continuations that agree on what the first call returns.
pub bind_cong :
    {A B : Type 0} (m : Result A) (f g : A → Result B)
    → ((a : A) → m ≡ ok a → f a ≡ g a)
    → (m >>= f) ≡ (m >>= g)
bind_cong (ok a) f g h = h a refl
bind_cong (err e) f g h = refl
