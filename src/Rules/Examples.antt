-- ===== src/Rules/Examples.antt =====
-- `validate_ruleset_examples` of src/RuleLoader.cpp.
use parser_framework.Base.{
  List, [], ◌∷◌, ◌++◌, map, Option, none, some, if◌then◌else◌, is_empty, Str, codes, Map, Result,
  ok, err, ◌>>=◌, ◌>>◌, for_all,
}
use parser_framework.Engines.Json
use parser_framework.Engines.Kv
use parser_framework.Engines.Regex
use parser_framework.Libraries.{Libraries}
use parser_framework.Messages.{Files}
use parser_framework.Property
use parser_framework.Rules.Expected.{
  validate_map, complaints, ruleset_example, validate_expected_tokens, validate_absent_tokens,
}
use parser_framework.Rules.Fields.{nested}
use parser_framework.Rules.Paths.{load_example_message}
use parser_framework.Rules.{ParserRuleSet, RulesetParserKind}
use parser_framework.Types.{SectionKind, empty_section, Token, empty_result}
use parser_framework.Yaml.{Yaml}

-- The first error, if there is one, is thrown behind the text.
unfoldable pub throw_first : Str → List Str → Result (Unit {0})
throw_first start [] = ok tt
throw_first start (error ∷ rest) = err (start ++ error)

abbrev pub failed : Str → Str
failed ruleset_name = ruleset_example ruleset_name ++ codes "failed: "

abbrev pub property_failed : Str → Str
property_failed ruleset_name =
    codes "Dynamic property example for ruleset [" ++ (ruleset_name ++ codes "] failed: ")

-- The token that stands for a parsed value in the evaluation of the properties.
abbrev pub example_token : Str → Str × Str → Token
example_token ruleset_name (name, value) = record {
  name = name;
  value = value;
  section = ruleset_name;
  source_engine = codes "example";
  path = name;
  start = 0;
  end = 0;
}

module _ {Node : Type 0} (yaml : Yaml Node) (files : Files) (lib : Libraries) where
  -- The `switch` over the kind: the parsed values, and `errors`.
  unfoldable pub parse_example : ParserRuleSet Node → Str → RulesetParserKind → Map Str × List Str
  parse_example rules message RulesetParserKind.kv = (Kv.parse_values rules.tokens message, [])
  parse_example rules message RulesetParserKind.json =
      Json.parse_values lib
        (record empty_section {
          id = rules.id;
          kind = SectionKind.json;
          json_matches = rules.json_matches;
          json_tokens = rules.json_tokens;
        })
        message []
  parse_example rules message RulesetParserKind.regex =
      Regex.parse_values lib rules.regex_tokens message []

  -- What is done with the dynamic properties of a ruleset that has some.
  unfoldable pub validate_properties : ParserRuleSet Node → Node → Map Str → Result (Unit {0})
  unfolding throw_first
  validate_properties rules example parsed_tokens = do
    let result = record empty_result { tokens = map (example_token rules.name) parsed_tokens }
    let (properties, errors) = Property.evaluate lib rules.dynamic_properties result []
    throw_first (property_failed rules.name) errors
    expected ← nested yaml example (codes "expect") (codes "properties")
    validate_map yaml (complaints (ruleset_example rules.name) (codes "property")) properties
        expected

  -- One round of the loop over the examples, from its message.
  unfoldable pub validate_message : ParserRuleSet Node → Node → Str → Result (Unit {0})
  unfolding parse_example throw_first validate_properties
  validate_message rules example message = do
    let (parsed_tokens, errors) = parse_example rules message rules.kind
    throw_first (failed rules.name) errors
    expected ← nested yaml example (codes "expect") (codes "tokens")
    validate_expected_tokens yaml rules.name expected parsed_tokens
    absent ← nested yaml example (codes "expect") (codes "absent_tokens")
    validate_absent_tokens yaml rules.name absent parsed_tokens
    if is_empty rules.dynamic_properties
        then ok tt
        else validate_properties rules example parsed_tokens

  unfoldable pub validate_example : ParserRuleSet Node → Node → Result (Unit {0})
  unfolding validate_message
  validate_example rules example = do
    message ← load_example_message files yaml example rules.definition_dir
    validate_message rules example message

  unfoldable pub validate_examples_node : ParserRuleSet Node → Option Node → Result (Unit {0})
  unfolding validate_example
  validate_examples_node rules none = ok tt
  validate_examples_node rules (some node) =
      if yaml.is_sequence node then for_all (validate_example rules) (yaml.items node) else ok tt

  unfoldable pub validate_ruleset_examples : ParserRuleSet Node → Result (Unit {0})
  unfolding validate_examples_node
  validate_ruleset_examples rules = validate_examples_node rules rules.examples
