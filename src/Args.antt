-- ===== src/Args.antt =====
-- src/utils/Args.cpp: the command line. The loops run over the arguments from index 1 on.
pub mod Values
use parser_framework.Base.{
  ℕ, ◌+◌, ◌-◌, ◌*◌, Bool, true, false, not, ◌&&◌, ◌||◌, List, [], ◌∷◌, Option, none, some, leb,
  ◌==◌, if◌then◌else◌, is_empty, drop, Str, str_eq, ℤ, pos, negsuc, Map, lookup, assign,
}

pub record Args : Type 0 where
  pub argv : List Str
  pub int_args : Map ℤ
  pub string_args : Map Str
  pub string_list_args : Map (List Str)
  pub bool_args : Map Bool

abbrev pub new : List Str → Args
new argv = record {
  argv = argv;
  int_args = [];
  string_args = [];
  string_list_args = [];
  bool_args = [];
}

-- `argument_matches`, for an index in range.
unfoldable pub argument_matches : Str → Str → Str → Bool
argument_matches key alt value = str_eq value key || str_eq value alt

-- `is_flag`, for an index in range.
unfoldable pub is_flag : Str → Bool
is_flag [] = false
is_flag (c ∷ rest) = c == b'-'

-- The loop of `add_key`.
unfoldable pub is_given : Str → Str → List Str → Bool
unfolding argument_matches
is_given key alt [] = false
is_given key alt (value ∷ rest) = argument_matches key alt value || is_given key alt rest

unfoldable pub add_key : Str → Str → Args → Args
unfolding is_given
add_key key alt args = record args {
  bool_args = assign key (is_given key alt (drop 1 args.argv)) args.bool_args;
}

-- The argument behind a key, if it is there and is no flag.
unfoldable pub next_value : List Str → Option Str
unfolding is_flag
next_value [] = none
next_value (value ∷ rest) = if is_flag value then none else some value

-- The loop of `add_string_value` and of `add_int_value`: what the first key found is given.
unfoldable pub value_of : Str → Str → List Str → Option Str
unfolding argument_matches next_value
value_of key alt [] = none
value_of key alt (value ∷ rest) =
    if argument_matches key alt value then next_value rest else value_of key alt rest

abbrev pub or_default {ℓ} : {A : Type ℓ} → A → Option A → A
or_default def none = def
or_default def (some value) = value

unfoldable pub add_string_value : Str → Str → Str → Args → Args
unfolding value_of
add_string_value key alt def args =
    let value = or_default def (value_of key alt (drop 1 args.argv)) in
    record args { string_args = assign key value args.string_args }

-- The loop of `add_string_values`. The flag tells that the arguments before this one belong to a
-- key, so that it is a value unless it is a flag; a flag is tested as a key.
unfoldable pub values_of : Str → Str → Bool → List Str → List Str
unfolding argument_matches is_flag
values_of key alt taking [] = []
values_of key alt taking (value ∷ rest) =
    let is_value = taking && not (is_flag value) in
    let later = values_of key alt (is_value || argument_matches key alt value) rest in
    if is_value then value ∷ later else later

abbrev pub or_values : List Str → List Str → List Str
or_values def values = if is_empty values then def else values

unfoldable pub add_string_values : Str → Str → List Str → Args → Args
unfolding values_of
add_string_values key alt def args = record args {
  string_list_args =
      assign key (or_values def (values_of key alt false (drop 1 args.argv))) args.string_list_args;
}

abbrev is_digit : ℕ → Bool
is_digit c = leb b'0' c && leb c b'9'

atoi_digits : ℕ → Str → ℕ
atoi_digits n [] = n
atoi_digits n (c ∷ rest) =
    let later = atoi_digits (n * 10 + (c - b'0')) rest in if is_digit c then later else n

abbrev negate : ℕ → ℤ
negate n = if n == 0 then pos 0 else negsuc (n - 1)

-- Behind the white space: an optional sign, then digits.
atoi_sign : Str → ℤ
unfolding atoi_digits
atoi_sign [] = pos 0
atoi_sign (c ∷ rest) =
    if c == b'-'
    then negate (atoi_digits 0 rest)
    else if c == b'+'
    then pos (atoi_digits 0 rest)
    else pos (atoi_digits 0 (c ∷ rest))

-- `std::atoi`. (C++ leaves open what it does with a number that is no `int`.)
unfoldable pub atoi : Str → ℤ
unfolding atoi_sign
atoi [] = pos 0
atoi (c ∷ rest) =
    let later = atoi rest in
    if c == b' ' || (leb 9 c && leb c 13) then later else atoi_sign (c ∷ rest)

abbrev pub or_int : ℤ → Option Str → ℤ
or_int def none = def
or_int def (some value) = atoi value

unfoldable pub add_int_value : Str → Str → ℤ → Args → Args
unfolding value_of
add_int_value key alt def args = record args {
  int_args = assign key (or_int def (value_of key alt (drop 1 args.argv))) args.int_args;
}

unfoldable pub get_int_value : Args → Str → ℤ
get_int_value args key = or_default (negsuc 0) (lookup key args.int_args)

unfoldable pub get_string_value : Args → Str → Str
get_string_value args key = or_default [] (lookup key args.string_args)

unfoldable pub get_string_values : Args → Str → List Str
get_string_values args key = or_default [] (lookup key args.string_list_args)

unfoldable pub is_key_present : Args → Str → Bool
is_key_present args key = or_default false (lookup key args.bool_args)

unfoldable pub is_string_present : Args → Str → Bool
unfolding get_string_value
is_string_present args key = not (is_empty (get_string_value args key))

unfoldable pub are_string_values_present : Args → Str → Bool
unfolding get_string_values
are_string_values_present args key = not (is_empty (get_string_values args key))
