-- ===== src/Base/Text.antt =====
-- `std::string` as the list of its bytes.
use Prim.Native.Char.{code}
use Prim.Native.String.{String}
use Prim.Native.Nat.{ℕ, zero, suc, ◌+◌, ◌/◌, ◌%◌, ◌<◌, ◌^◌, compare, Ordering}
use mathlib.Core.Path.{◌≡◌, refl}
use mathlib.Core.Logic.{◌↔◌, ◌≢◌}
use mathlib.Core.List.{List, [], ◌∷◌, ◌++◌}
use mathlib.Core.Option.{Option, none, some}
use mathlib.Core.Bool.{Bool, true, false, ◌&&◌, ◌||◌}
use native.Mathlib.Omega.{arith}
use parser_framework.Base.Tests.{◌==◌, ltb, if◌then◌else◌}

abbrev pub Str : Type 0
Str = List ℕ

-- The bytes of a literal, all of which are ASCII.
abbrev pub codes : String → Str
codes String.[] = []
codes (String.◌∷◌ c s) = code c ∷ codes s

-- `a == b`
unfoldable pub str_eq : Str → Str → Bool
str_eq [] [] = true
str_eq (x ∷ xs) (y ∷ ys) = x == y && str_eq xs ys
str_eq _ _ = false

pub str_eq_iff : (a b : Str) → (str_eq a b ≡ true) ↔ (a ≡ b)
unfolding str_eq
str_eq_iff (x ∷ a) (y ∷ b) = ground (arith, str_eq_iff a b)
str_eq_iff _ _ = ground arith

pub str_eq_refl : (a : Str) → str_eq a a ≡ true
str_eq_refl a = (str_eq_iff a a).1 refl

-- `std::find(v.begin(), v.end(), s) != v.end()`
unfoldable pub contains : List Str → Str → Bool
contains [] s = false
contains (x ∷ xs) s = str_eq x s || contains xs s

pub contains-append :
    (xs ys : List Str) (s : Str) → contains (xs ++ ys) s ≡ (contains xs s || contains ys s)
unfolding contains
contains-append [] ys s = refl
contains-append (x ∷ xs) ys s = ground (arith, contains-append xs ys s)

-- No string stands twice.
abbrev pub Distinct : List Str → Type 0
Distinct [] = Unit
Distinct (x ∷ xs) = (contains xs x ≡ false) × Distinct xs

pub Distinct-concat :
    (xs : List Str) (s : Str) → Distinct xs → contains xs s ≡ false → Distinct (xs ++ s ∷ [])
unfolding contains
Distinct-concat [] s h absent = (refl, tt)
Distinct-concat (x ∷ xs) s h absent = (
  ground (arith, contains-append xs (s ∷ []) x, str_eq_iff x s, str_eq_iff s x),
  Distinct-concat xs s h.1 (ground arith),
)

-- No string stands twice in the list, and none is empty.
abbrev pub IsIds : List Str → Type 0
IsIds [] = Unit
IsIds (x ∷ xs) = (contains xs x ≡ false) × (x ≢ []) × IsIds xs

pub IsIds-concat :
    (xs : List Str) (s : Str) → IsIds xs → contains xs s ≡ false → s ≢ [] → IsIds (xs ++ s ∷ [])
unfolding contains
IsIds-concat [] s h absent ne = (refl, ne, tt)
IsIds-concat (x ∷ xs) s h absent ne = (
  ground (arith, contains-append xs (s ∷ []) x, str_eq_iff x s, str_eq_iff s x),
  h.1,
  IsIds-concat xs s h.2 (ground arith) ne,
)

-- The order of `std::map` keys: byte by byte, a prefix first.
unfoldable pub compare_str : Str → Str → Ordering
compare_str [] [] = Ordering.eq
compare_str [] (y ∷ ys) = Ordering.lt
compare_str (x ∷ xs) [] = Ordering.gt
compare_str (x ∷ xs) (y ∷ ys) = elim (compare x y) [
  | Ordering.eq ↦ compare_str xs ys
  | Ordering.lt ↦ Ordering.lt
  | Ordering.gt ↦ Ordering.gt
]

pub compare_str-eq_iff : (a b : Str) → (compare_str a b ≡ Ordering.eq) ↔ (a ≡ b)
unfolding compare_str
compare_str-eq_iff (x ∷ a) (y ∷ b) = ground (arith, compare_str-eq_iff a b)
compare_str-eq_iff _ _ = ground arith

-- `s.find(c)`: the place of the first `c`, or `npos`.
unfoldable pub find_char : ℕ → Str → Option ℕ
find_char c [] = none
find_char c (x ∷ xs) =
    if x == c then some 0 else elim (find_char c xs) [ none ↦ none | some i ↦ some (suc i) ]

-- `s.rfind(prefix, 0) == 0`
unfoldable pub starts_with : Str → Str → Bool
starts_with [] s = true
starts_with (p ∷ ps) [] = false
starts_with (p ∷ ps) (x ∷ xs) = p == x && starts_with ps xs

-- `s.find(pattern)` for a string.
unfoldable pub find_str : Str → Str → Option ℕ
unfolding starts_with
find_str pattern [] = if starts_with pattern [] then some 0 else none
find_str pattern (x ∷ xs) =
    let rest = find_str pattern xs in
    if starts_with pattern (x ∷ xs)
    then some 0
    else elim rest [ none ↦ none | some i ↦ some (suc i) ]

digits_onto : ℕ → ℕ → Str → Str
digits_onto zero n out = out
digits_onto (suc fuel) n out =
    let rest = digits_onto fuel (n / 10) ((b'0' + n % 10) ∷ out) in
    if ltb n 10 then (b'0' + n % 10) ∷ out else rest

-- `std::to_string` and `<<` of an unsigned number, in decimal.
unfoldable pub to_string : ℕ → Str
unfolding digits_onto
to_string n = digits_onto (suc n) n []

abbrev pub are_digits : Str → Bool
are_digits [] = true
are_digits (c ∷ rest) = (ltb 47 c && ltb c 58) && are_digits rest

digits_onto-are :
    (fuel n : ℕ) (out : Str) → are_digits out ≡ true → are_digits (digits_onto fuel n out) ≡ true
unfolding digits_onto
digits_onto-are zero n out h = h
digits_onto-are (suc fuel) n out h =
    ground (arith, h, digits_onto-are fuel (n / 10) ((b'0' + n % 10) ∷ out))

pub to_string-are_digits : (n : ℕ) → are_digits (to_string n) ≡ true
unfolding to_string
to_string-are_digits n = digits_onto-are (suc n) n [] refl

-- `std::size_t` has 64 bits.
abbrev pub size_mod : ℕ
size_mod = 2 ^ 64

unfoldable pub add_size : ℕ → ℕ → ℕ
add_size a b = (a + b) % size_mod

pub add_size-eq : (a b : ℕ) → a + b < size_mod → add_size a b ≡ a + b
unfolding add_size
add_size-eq a b h = omega arith
