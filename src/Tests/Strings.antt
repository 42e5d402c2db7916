-- ===== src/Tests/Strings.antt =====
-- Command lines of src/utils/Args.cpp, and an escaped string.
use parser_framework.Args.Values.{Given, str_eq→ne, get_string-add_first, get_values-add_group}
use parser_framework.Args.{
  new, argument_matches, is_flag, add_string_value, get_string_value, add_string_values,
  get_string_values, values_of, next_value,
}
use parser_framework.Base.{
  ◌≡◌, refl, [], ◌∷◌, ◌++◌, some, codes, str_eq, lookup, assign, true, false, inr,
}
use parser_framework.Json.Reader.{read_string, read-escape}
use parser_framework.Json.{escape_json_string}

-- The same key twice: the first counts.
get_string-add_first_example : Given (codes "none") (codes "dir" ∷ codes "-r" ∷ codes "x" ∷ []) (
    get_string_value
      (add_string_value
        (codes "--rules")
        (codes "-r")
        (codes "none")
        (new (codes "prog" ∷ codes "-v" ∷ codes "-r" ∷ codes "dir" ∷ codes "-r" ∷ codes "x" ∷ [])))
      (codes "--rules"))
unfolding str_eq
get_string-add_first_example =
    get_string-add_first (codes "--rules") (codes "-r") (codes "none") _ (codes "prog")
      (codes "-v" ∷ []) (codes "-r") (codes "dir" ∷ codes "-r" ∷ codes "x" ∷ []) refl
      (
        (str_eq→ne (codes "-v") (codes "--rules") refl, str_eq→ne (codes "-v") (codes "-r") refl),
        tt,
      )
      (inr refl)

-- A flag behind the first key leaves the default, though the key stands again with a value.
first_is_flag :
    get_string_value
      (add_string_value
        (codes "--rules")
        (codes "-r")
        (codes "none")
        (new (codes "prog" ∷ codes "-r" ∷ codes "-v" ∷ codes "-r" ∷ codes "x" ∷ [])))
      (codes "--rules")
    ≡ codes "none"
unfolding add_string_value get_string_value argument_matches is_flag str_eq next_value lookup assign
first_is_flag = refl

matches_r : argument_matches (codes "--msg") (codes "-m") (codes "-m") ≡ true
unfolding argument_matches str_eq
matches_r = refl

get_values-add_group_example :
    get_string_values
      (add_string_values
        (codes "--msg")
        (codes "-m")
        []
        (new (codes "prog" ∷ codes "-m" ∷ codes "a" ∷ codes "b" ∷ codes "-m" ∷ codes "c" ∷ [])))
      (codes "--msg")
    ≡ codes "a" ∷ codes "b" ∷ codes "c" ∷ []
unfolding values_of str_eq
get_values-add_group_example =
    get_values-add_group (codes "--msg") (codes "-m") [] _ (codes "prog") [] (codes "-m")
      (codes "a" ∷ codes "b" ∷ []) (codes "-m") (codes "c" ∷ []) refl tt refl (refl, (refl, tt))
      refl

read-escape_example :
    read_string false (escape_json_string (b'"' ∷ codes "a\\\n") ++ (b'"' ∷ codes " : 1"))
    ≡ some (b'"' ∷ codes "a\\\n", codes " : 1")
read-escape_example = read-escape (b'"' ∷ codes "a\\\n") (codes " : 1")
