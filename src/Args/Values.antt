-- ===== src/Args/Values.antt =====
-- What the getters return behind the calls that read the command line.
use mathlib.Core.Path.{subst}
use parser_framework.Base.{
  ℕ, true, false, List, [], ◌∷◌, ◌++◌, ◌≡◌, ◌≢◌, ◌⊎◌, inl, inr, refl, sym, ◌∙◌, ap, Str, str_eq,
  str_eq_refl, str_eq_iff, lookup-assign, ℤ, All, arith, ◌==◌, ==_iff, Bool-cases,
}
use parser_framework.Args.{
  Args, argument_matches, is_flag, add_key, next_value, value_of, or_default, add_string_value,
  values_of, or_values, add_string_values, add_int_value, get_int_value, get_string_value,
  get_string_values, is_key_present,
}

-- None of the arguments is the key or its alternative.
abbrev pub Absent : Str → Str → List Str → Type 0
Absent key alt [] = Unit
Absent key alt (value ∷ rest) = (argument_matches key alt value ≡ false) × Absent key alt rest

value_of-append :
    (key alt : Str) (before : List Str) (found : Str) (rest : List Str)
    → Absent key alt before
    → argument_matches key alt found ≡ true
    → value_of key alt (before ++ found ∷ rest) ≡ next_value rest
unfolding value_of
value_of-append key alt [] found rest h m = rw m
value_of-append key alt (value ∷ before) found rest h m =
    rw h.0 (value_of-append key alt before found rest h.1 m)

-- What the first argument behind a key gives: nothing if there is none or if it begins with a dash,
-- else itself, also if it is empty.
pub data Given (def : Str) : List Str → Str → Type 0 where
  missing : Given def [] def
  a_flag : (name : Str) (rest : List Str) → Given def ((b'-' ∷ name) ∷ rest) def
  no_text : (rest : List Str) → Given def ([] ∷ rest) []
  text :
      (c : ℕ) (value : Str) (rest : List Str)
      → c ≢ b'-'
      → Given def ((c ∷ value) ∷ rest) (c ∷ value)

next_value-Given : (def : Str) (rest : List Str) → Given def rest (or_default def (next_value rest))
unfolding next_value is_flag
next_value-Given def [] = missing
next_value-Given def ([] ∷ rest) = no_text rest
next_value-Given def ((c ∷ value) ∷ rest) = elim (Bool-cases (c == b'-')) [
  | inl p ↦
      rw p (
        subst (λ d. Given def ((d ∷ value) ∷ rest) def) (sym ((==_iff c _).0 p))
          (a_flag value rest))
  | inr p ↦ rw p (text c value rest (λ e. cc (p, (==_iff c _).1 e)))
]

-- None of the arguments is the one text or the other.
abbrev pub Neither : Str → Str → List Str → Type 0
Neither key alt = All (λ value. (value ≢ key) × (value ≢ alt))

str_eq-ne : (a b : Str) → a ≢ b → str_eq a b ≡ false
str_eq-ne a b ne = elim (Bool-cases (str_eq a b)) [
  | inl p ↦ absurd (ne ((str_eq_iff a b).0 p))
  | inr p ↦ p
]

pub str_eq→ne : (a b : Str) → str_eq a b ≡ false → a ≢ b
str_eq→ne a b h = λ e. cc (h, (str_eq_iff a b).1 e)

Absent-Neither :
    (key alt : Str) (before : List Str) → Neither key alt before → Absent key alt before
unfolding argument_matches
Absent-Neither key alt [] h = tt
Absent-Neither key alt (value ∷ before) h =
    (rw (str_eq-ne value key h.0.0, str_eq-ne value alt h.0.1), Absent-Neither key alt before h.1)

found-matches :
    (key alt found : Str) → (found ≡ key) ⊎ (found ≡ alt) → argument_matches key alt found ≡ true
unfolding argument_matches
found-matches key alt found (inl e) = rw ((str_eq_iff found key).1 e)
found-matches key alt found (inr e) = ground (arith, (str_eq_iff found alt).1 e)

-- A string option has the argument behind the first place where its key or its alternative stands,
-- if there is one there that does not begin with a dash; if not, it has its default. The arguments
-- behind that one are not searched, and the program's name is passed over.
pub get_string-add_first :
    (key alt def : Str) (args : Args) (program : Str) (before : List Str) (found : Str)
    (rest : List Str)
    → args.argv ≡ program ∷ (before ++ found ∷ rest)
    → Neither key alt before
    → (found ≡ key) ⊎ (found ≡ alt)
    → Given def rest (get_string_value (add_string_value key alt def args) key)
unfolding get_string_value add_string_value
get_string-add_first key alt def args program before found rest e h m =
    rw
      (
        lookup-assign,
        str_eq_refl,
        e,
        value_of-append key alt before found rest (Absent-Neither key alt before h)
            (found-matches key alt found m),
      )
      (next_value-Given def rest)

-- `add_string_value`, `add_int_value`, `add_key` and `add_string_values` each set one entry of one
-- table: every other key of that table reads as before.
pub add_frame :
    (key alt j def : Str) (defs : List Str) (number : ℤ) (args : Args)
    → str_eq key j ≡ false
    → (get_string_value (add_string_value key alt def args) j ≡ get_string_value args j)
      × (get_int_value (add_int_value key alt number args) j ≡ get_int_value args j)
      × (get_string_values (add_string_values key alt defs args) j ≡ get_string_values args j)
      × (is_key_present (add_key key alt args) j ≡ is_key_present args j)
unfolding get_string_value add_string_value get_int_value add_int_value get_string_values
    add_string_values is_key_present add_key
add_frame key alt j def defs number args h =
    (rw (lookup-assign, h), rw (lookup-assign, h), rw (lookup-assign, h), rw (lookup-assign, h))

-- All arguments are values: none begins with a dash.
abbrev pub Plain : List Str → Type 0
Plain [] = Unit
Plain (value ∷ rest) = (is_flag value ≡ false) × Plain rest

values_of-Plain :
    (key alt : Str) (values rest : List Str)
    → Plain values
    → values_of key alt true (values ++ rest) ≡ values ++ values_of key alt true rest
unfolding values_of
values_of-Plain key alt [] rest h = refl
values_of-Plain key alt (value ∷ values) rest h =
    rw h.0 (ap (◌∷◌ value) (values_of-Plain key alt values rest h.1))

values_of-Absent :
    (key alt : Str) (before rest : List Str)
    → Absent key alt before
    → values_of key alt false (before ++ rest) ≡ values_of key alt false rest
unfolding values_of
values_of-Absent key alt [] rest h = refl
values_of-Absent key alt (value ∷ before) rest h = rw h.0 (values_of-Absent key alt before rest h.1)

values_of-group :
    (key alt found : Str) (values : List Str) (flag : Str) (rest : List Str)
    → argument_matches key alt found ≡ true
    → Plain values
    → is_flag flag ≡ true
    → values_of key alt false (found ∷ (values ++ flag ∷ rest))
      ≡ values ++ values_of key alt (argument_matches key alt flag) rest
unfolding values_of
values_of-group key alt found values flag rest m p f =
    rw m (rw (values_of-Plain key alt values (flag ∷ rest) p) (rw f))

-- A key gathers all arguments behind it up to the next flag, and goes on there: the same key may
-- stand again and gather more. A list of none leaves the default.
pub get_values-add_group :
    (key alt : Str) (def : List Str) (args : Args) (program : Str) (before : List Str) (found : Str)
    (values : List Str) (flag : Str) (rest : List Str)
    → args.argv ≡ program ∷ (before ++ found ∷ (values ++ flag ∷ rest))
    → Absent key alt before
    → argument_matches key alt found ≡ true
    → Plain values
    → is_flag flag ≡ true
    → get_string_values (add_string_values key alt def args) key
      ≡ or_values def (values ++ values_of key alt (argument_matches key alt flag) rest)
unfolding get_string_values add_string_values
get_values-add_group key alt def args program before found values flag rest e h m p f =
    rw (lookup-assign, str_eq_refl, e)
      (ap (or_values def) (
        values_of-Absent key alt before (found ∷ (values ++ flag ∷ rest)) h
        ∙ values_of-group key alt found values flag rest m p f))
