-- ===== src/Rules/Identification.antt =====
-- `parse_message_rule` of src/RuleLoader.cpp, and the check of its examples.
use parser_framework.Base.{
  ℕ, not, ◌&&◌, List, [], ◌∷◌, ◌++◌, Option, none, some, if◌then◌else◌, is_empty, Str, codes, Map,
  lookup, emplace, Result, ok, err, ◌>>=◌, ◌>>◌, throw_if, collect, for_all,
}
use parser_framework.Engines.Regex.{match_message_filter}
use parser_framework.Libraries.{Libraries}
use parser_framework.Messages.{Files}
use parser_framework.Pattern.{normalize_message_filter}
use parser_framework.Rules.Examples.{throw_first}
use parser_framework.Rules.Expected.{Complaints, compare_value}
use parser_framework.Rules.Fields.{text_at, nested, map_of, sequence_of}
use parser_framework.Rules.Paths.{load_example_message}
use parser_framework.Rules.Sections.{parse_section_node}
use parser_framework.Rules.{ParserRuleSet, IdentificationExample}
use parser_framework.Types.{MessageFilterRule, MessageRule, FilterMatch, no_match}
use parser_framework.Yaml.{Yaml}

abbrev pub no_filters : Str → Str
no_filters id = codes "Message rule [" ++ (id ++ codes "] has no message_filter patterns")

abbrev pub no_sections : Str → Str
no_sections id = codes "Message rule [" ++ (id ++ codes "] has no sections")

-- `captures.emplace(...)` for each pair.
unfoldable pub emplace_all : List (Str × Str) → Map Str → Map Str
emplace_all [] captures = captures
emplace_all ((name, value) ∷ rest) captures = emplace_all rest (emplace name value captures)

abbrev pub identification_example : Str → Str
identification_example name = codes "Identification example for rule [" ++ (name ++ codes "] ")

-- The error texts of the captures of an example.
abbrev pub capture_complaints : Str → Complaints
capture_complaints rule_name = record {
  missing = λ name.
      identification_example rule_name ++ (codes "missing capture [" ++ (name ++ codes "]"));
  different = λ name expected parsed.
      identification_example rule_name
      ++ (codes "capture ["
          ++ (name
              ++ (codes "] expected ["
                  ++ (expected ++ (codes "] but parsed [" ++ (parsed ++ codes "]"))))));
}

abbrev pub not_matched : Str → Str
not_matched rule_name = identification_example rule_name ++ codes "did not match"

unfoldable pub check_capture : Str → Map Str → Str × Str → Result (Unit {0})
unfolding compare_value
check_capture rule_name captures (name, expected) =
    compare_value (capture_complaints rule_name) name expected (lookup name captures)

module _ (lib : Libraries) where
  -- The loop over the filters, which stops at one that matches: the last match, and `errors`.
  unfoldable pub match_filters :
      List MessageFilterRule → Str → FilterMatch → List Str → FilterMatch × List Str
  match_filters [] message last errors = (last, errors)
  match_filters (filter ∷ rest) message last errors =
      let (found, errors') = match_message_filter lib filter message errors in
      let later = match_filters rest message found errors' in
      if found.matched then (found, errors') else later

  -- One round of the loop over the examples.
  unfoldable pub validate_identification_example :
      MessageRule → IdentificationExample → Result (Unit {0})
  unfolding match_filters throw_first check_capture for_all
  validate_identification_example rule example = do
    let (found, errors) = match_filters rule.filters example.message no_match []
    throw_first (identification_example rule.name ++ codes "failed: ") errors
    throw_if (not found.matched) (not_matched rule.name)
    for_all (check_capture rule.name found.captures) example.captures

  unfoldable pub validate_identification_examples :
      MessageRule → List IdentificationExample → Result (Unit {0})
  unfolding validate_identification_example for_all
  validate_identification_examples rule examples =
      for_all (validate_identification_example rule) examples

module _ {Node : Type 0} (yaml : Yaml Node) (files : Files) (lib : Libraries) where
  abbrev pub text_pair : Str → Str → Str × Str
  text_pair name value = (name, value)

  unfoldable pub parse_identification_example : Str → Node → Result IdentificationExample
  unfolding emplace_all
  parse_identification_example definition_dir node = do
    message ← load_example_message files yaml node definition_dir
    captures ← nested yaml node (codes "expect") (codes "captures")
    pairs ← map_of yaml text_pair captures
    ok (record { message = message; captures = emplace_all pairs [] })

  -- `filter_node["pattern"].as<std::string>()`, normalized.
  unfoldable pub parse_filter : Node → Result MessageFilterRule
  parse_filter filter_node = do
    pattern ← text_at yaml filter_node (codes "pattern")
    normalize_message_filter pattern

  -- The nodes of `message_filter`, if it is a sequence of some.
  unfoldable pub filter_nodes : Str → Option Node → Result (List Node)
  filter_nodes id none = err (no_filters id)
  filter_nodes id (some filters) =
      if yaml.is_sequence filters && not (is_empty (yaml.items filters))
      then ok (yaml.items filters)
      else err (no_filters id)

  unfoldable pub section_nodes : Str → Option Node → Result (List Node)
  section_nodes id none = err (no_sections id)
  section_nodes id (some sections) =
      if yaml.is_sequence sections then ok (yaml.items sections) else err (no_sections id)

  -- `fuel` bounds the nesting of sections.
  unfoldable pub parse_message_rule : ℕ → Map (ParserRuleSet Node) → Str → Node → Result MessageRule
  unfolding filter_nodes section_nodes parse_filter parse_identification_example
      validate_identification_examples
  parse_message_rule fuel rulesets definition_dir node = do
    id ← text_at yaml node (codes "id")
    name ← text_at yaml node (codes "name")
    filters_node ← yaml.child node (codes "message_filter")
    filter_list ← filter_nodes id filters_node
    filters ← collect parse_filter filter_list
    sections_node ← yaml.child node (codes "sections")
    section_list ← section_nodes id sections_node
    sections ← collect (parse_section_node yaml fuel rulesets id) section_list
    examples_node ← yaml.child node (codes "examples")
    examples ← sequence_of yaml (parse_identification_example definition_dir) examples_node
    validate_identification_examples lib
        (record { id = id; name = name; filters = filters; sections = sections }) examples
    ok (record { id = id; name = name; filters = filters; sections = sections })
