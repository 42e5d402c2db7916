-- ===== src/Rules/Rulesets.antt =====
-- `parse_ruleset` of src/RuleLoader.cpp and the readers that it calls.
use parser_framework.Base.{
  List, [], ◌++◌, Option, none, some, if◌then◌else◌, Str, codes, str_eq, Result, ok, err, ◌>>=◌,
  collect,
}
use parser_framework.Rules.Fields.{text_at, update_from, sequence_of, map_of}
use parser_framework.Rules.{ParserRuleSet, RulesetParserKind}
use parser_framework.Types.{DeclaredToken, RegexTokenRule, JsonMatchRule, JsonTokenRule}
use parser_framework.Yaml.{Yaml}

abbrev pub unsupported_parser : Str → Str
unsupported_parser parser_name =
    codes "Unsupported parser ruleset type [" ++ (parser_name ++ codes "]")

unfoldable pub parse_ruleset_kind : Str → Result RulesetParserKind
parse_ruleset_kind parser_name =
    if str_eq parser_name (codes "kv")
    then ok RulesetParserKind.kv
    else if str_eq parser_name (codes "json")
    then ok RulesetParserKind.json
    else if str_eq parser_name (codes "regex")
    then ok RulesetParserKind.regex
    else err (unsupported_parser parser_name)

module _ {Node : Type 0} (yaml : Yaml Node) where
  unfoldable pub parse_dynamic_properties : Option Node → Result (List Str)
  parse_dynamic_properties node = sequence_of yaml yaml.as_string node

  unfoldable pub parse_declared_tokens : Option Node → Result (List DeclaredToken)
  parse_declared_tokens node = map_of yaml (λ name type. record { name = name; type = type }) node

  unfoldable pub parse_regex_token_rule : Node → Result RegexTokenRule
  parse_regex_token_rule token_node = do
    name ← text_at yaml token_node (codes "name")
    pattern ← text_at yaml token_node (codes "pattern")
    group ← update_from yaml yaml.as_size token_node (codes "group") 1
    ok (record { name = name; pattern = pattern; group = group })

  unfoldable pub parse_regex_token_rules : Option Node → Result (List RegexTokenRule)
  unfolding parse_regex_token_rule
  parse_regex_token_rules node = sequence_of yaml parse_regex_token_rule node

  abbrev pub some_text : Node → Result (Option Str)
  some_text node = do text ← yaml.as_string node; ok (some text)

  unfoldable pub parse_json_match_rule : Node → Result JsonMatchRule
  parse_json_match_rule match_node = do
    path ← text_at yaml match_node (codes "path")
    equals ← update_from yaml some_text match_node (codes "equals") none
    ok (record { path = path; equals = equals })

  unfoldable pub parse_json_match_rules : Option Node → Result (List JsonMatchRule)
  unfolding parse_json_match_rule
  parse_json_match_rules node = sequence_of yaml parse_json_match_rule node

  unfoldable pub parse_json_token_rules : Option Node → Result (List JsonTokenRule)
  parse_json_token_rules node = map_of yaml (λ name path. record { name = name; path = path }) node

  -- `if (node["bindings"]) for (const auto& binding : node["bindings"]) ...`
  abbrev pub bindings_of : Option Node → Result (List Str)
  bindings_of none = ok []
  bindings_of (some node) = collect yaml.as_string (yaml.items node)

  -- The `switch` over the kind.
  unfoldable pub parse_kind_fields :
      Node → ParserRuleSet Node → RulesetParserKind → Result (ParserRuleSet Node)
  unfolding parse_json_match_rules parse_json_token_rules parse_regex_token_rules
  parse_kind_fields node parsed RulesetParserKind.kv = ok parsed
  parse_kind_fields node parsed RulesetParserKind.json = do
    matches_node ← yaml.child node (codes "json_matches")
    json_matches ← parse_json_match_rules matches_node
    tokens_node ← yaml.child node (codes "json_tokens")
    json_tokens ← parse_json_token_rules tokens_node
    ok (record parsed { json_matches = json_matches; json_tokens = json_tokens })
  parse_kind_fields node parsed RulesetParserKind.regex = do
    tokens_node ← yaml.child node (codes "regex_tokens")
    regex_tokens ← parse_regex_token_rules tokens_node
    ok (record parsed { regex_tokens = regex_tokens })

  unfoldable pub parse_ruleset : Node → Str → Result (ParserRuleSet Node)
  unfolding parse_ruleset_kind parse_declared_tokens parse_dynamic_properties parse_kind_fields
  parse_ruleset node definition_dir = do
    id ← text_at yaml node (codes "id")
    name ← text_at yaml node (codes "name")
    parser_name ← text_at yaml node (codes "parser")
    kind ← parse_ruleset_kind parser_name
    tokens_node ← yaml.child node (codes "tokens")
    tokens ← parse_declared_tokens tokens_node
    properties_node ← yaml.child node (codes "dynamic_properties")
    dynamic_properties ← parse_dynamic_properties properties_node
    examples_node ← yaml.child node (codes "examples")
    examples ← yaml.assigned (codes "examples") examples_node
    bindings_node ← yaml.child node (codes "bindings")
    bindings ← bindings_of bindings_node
    parse_kind_fields node
        (record {
          id = id;
          name = name;
          kind = kind;
          definition_dir = definition_dir;
          bindings = bindings;
          tokens = tokens;
          dynamic_properties = dynamic_properties;
          regex_tokens = [];
          json_matches = [];
          json_tokens = [];
          examples = examples;
        })
        kind
