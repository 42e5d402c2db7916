-- ===== src/Rules/Expected.antt =====
-- The comparisons of src/RuleLoader.cpp between what an example expects and what was parsed.
use parser_framework.Base.{
  not, ◌++◌, Option, none, some, if◌then◌else◌, is_some, Str, codes, str_eq, Map, lookup, Result,
  ok, err, ◌>>=◌, throw_if, for_all,
}
use parser_framework.Yaml.{Yaml}

-- The error texts of one kind of entry, from its name.
pub record Complaints : Type 0 where
  pub missing : Str → Str
  -- From the value expected and the value parsed.
  pub different : Str → Str → Str → Str

-- `subject [example_name] missing kind [name]` and the other text; `between` stands before the kind.
abbrev pub complaints : Str → Str → Complaints
complaints subject kind = record {
  missing = λ name. subject ++ (codes "missing " ++ (kind ++ (codes " [" ++ (name ++ codes "]"))));
  different = λ name expected parsed.
      subject
      ++ (kind
          ++ (codes " ["
              ++ (name
                  ++ (codes "] expected ["
                      ++ (expected ++ (codes "] but parsed [" ++ (parsed ++ codes "]")))))));
}

abbrev pub ruleset_example : Str → Str
ruleset_example name = codes "Example for ruleset [" ++ (name ++ codes "] ")

-- An entry that is expected, against the value that is there.
unfoldable pub compare_value : Complaints → Str → Str → Option Str → Result (Unit {0})
compare_value texts name expected none = err (texts.missing name)
compare_value texts name expected (some parsed) =
    throw_if (not (str_eq parsed expected)) (texts.different name expected parsed)

module _ {Node : Type 0} (yaml : Yaml Node) where
  -- One round of a loop over a map of expected values.
  unfoldable pub check_entry : Complaints → Map Str → Node × Node → Result (Unit {0})
  unfolding compare_value
  check_entry texts parsed (k, v) = do
    name ← yaml.as_string k
    expected ← yaml.as_string v
    compare_value texts name expected (lookup name parsed)

  -- A loop over a map of expected values, if there is one.
  unfoldable pub validate_map : Complaints → Map Str → Option Node → Result (Unit {0})
  unfolding check_entry for_all
  validate_map texts parsed none = ok tt
  validate_map texts parsed (some node) =
      if yaml.is_map node then for_all (check_entry texts parsed) (yaml.entries node) else ok tt

  unfoldable pub validate_expected_tokens : Str → Option Node → Map Str → Result (Unit {0})
  unfolding validate_map
  validate_expected_tokens ruleset_name expected_tokens parsed_tokens =
      validate_map (complaints (ruleset_example ruleset_name) (codes "token")) parsed_tokens
        expected_tokens

  abbrev pub absent_token : Str → Str → Str
  absent_token ruleset_name name =
      ruleset_example ruleset_name
      ++ (codes "unexpectedly parsed absent token [" ++ (name ++ codes "]"))

  unfoldable pub check_absent : Str → Map Str → Node → Result (Unit {0})
  check_absent ruleset_name parsed_tokens absent = do
    name ← yaml.as_string absent
    throw_if (is_some (lookup name parsed_tokens)) (absent_token ruleset_name name)

  unfoldable pub validate_absent_tokens : Str → Option Node → Map Str → Result (Unit {0})
  unfolding check_absent for_all
  validate_absent_tokens ruleset_name none parsed_tokens = ok tt
  validate_absent_tokens ruleset_name (some node) parsed_tokens =
      if yaml.is_sequence node
      then for_all (check_absent ruleset_name parsed_tokens) (yaml.items node)
      else ok tt
