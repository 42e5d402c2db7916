-- ===== src/Tests/Rules.antt =====
-- A small file of rules through src/RuleLoader.cpp.
use parser_framework.Base.{
  emplace, for_all, some, ◌≡◌, refl, ◌↔◌, Passes, All, Distinct, arith, true, false, List, [], ◌∷◌,
  none, Str, codes, str_eq, collect, lookup, assign, find_str, is_absolute, join_path, parent_path,
  contains, ok,
}
use parser_framework.Engines.Kv.{parse_values, first_non_empty_capture}
use parser_framework.Engines.Regex.{match_message_filter, search_capture}
use parser_framework.Messages.{Files}
use parser_framework.Pattern.{normalize_message_filter, rewrite_pattern_for_capture}
use parser_framework.Rules.Accepted.{Accepted, validate_identification_examples_iff}
use parser_framework.Rules.Depth.{Parses, parse_section_node-Parses}
use parser_framework.Rules.Distinct.{load_example_messages-Distinct}
use parser_framework.Rules.Files.{
  load_rules, load_example_messages, for_each_rule_file, rules_path, load_parser_rules_file,
}
use parser_framework.Rules.Expected.{validate_expected_tokens, validate_absent_tokens}
use parser_framework.Rules.Fields.{text_at, map_of, sequence_of, update_from, nested}
use parser_framework.Rules.Identification.{validate_identification_examples}
use parser_framework.Rules.Examples.{validate_ruleset_examples}
use parser_framework.Rules.Passed.{ExamplesHold, validate_ruleset_examples_iff}
use parser_framework.Rules.Trusted.{Trusted, rulesets-Trusted}
use parser_framework.Rules.Paths.{load_example_message, resolve_loop, resolve_message_path}
use parser_framework.Rules.Resolved.{Nearest, resolve_loop-Nearest}
use parser_framework.Rules.Sections.{parse_section_node}
use parser_framework.Rules.{ParserRuleSet, RulesetParserKind, IdentificationExample}
use parser_framework.Tests.Data.{test_libraries}
use parser_framework.Tests.Documents.{
  Doc, text, sequence, table, end, item, field_texts, yaml_of, heights_of,
}
use parser_framework.Types.{
  MessageRule, SectionKind, SectionSettings, empty_section, section_rule, nil, cons,
}
use parser_framework.Yaml.{Yaml}

abbrev pub one : Doc → Doc
one doc = sequence (item [] doc end)

abbrev pub field : Str → Str → Doc
field name value = table (item name (text value) end)

abbrev inner_doc : Doc
inner_doc = table (
    field_texts (codes "id" ∷ []) (
      item (codes "ruleset") (text (codes "name")) (item (codes "parser") (text (codes "kv")) end)))

abbrev section_doc : Doc
section_doc = table (
    field_texts (codes "id" ∷ [])
      (item (codes "parser") (text (codes "mixed")) (item (codes "sections") (one inner_doc) end)))

abbrev example_doc : Doc
example_doc =
    table (item (codes "message") (text (codes "abc")) (item (codes "expect") (table end) end))

abbrev message_doc : Doc
message_doc = table (
    field_texts (codes "id" ∷ codes "name" ∷ []) (
      item (codes "message_filter") (one (field (codes "pattern") (codes "b"))) (
        item (codes "sections") (one section_doc) (item (codes "examples") (one example_doc) end))))

-- A message of the ruleset, with the value that is expected.
abbrev ruleset_example_doc : Doc
ruleset_example_doc = table (
    item (codes "message") (text (codes "user=bob")) (
      item (codes "expect") (table (item (codes "tokens") (field (codes "user") (codes "bob")) end))
        end))

abbrev ruleset_doc : Doc
ruleset_doc = table (
    field_texts (codes "id" ∷ codes "name" ∷ []) (
      item (codes "parser") (text (codes "kv")) (
        item (codes "tokens") (field (codes "user") (codes "STRING"))
          (item (codes "examples") (one ruleset_example_doc) end))))

abbrev file_doc : Doc
file_doc =
    table (item (codes "rules") (one ruleset_doc) (item (codes "messages") (one message_doc) end))

abbrev test_yaml : Yaml Doc
test_yaml = yaml_of (λ path. file_doc)

abbrev pub one_file : Files
one_file = record {
  exists = λ path. str_eq path (codes "/r/m.log");
  is_regular_file = λ path. true;
  is_directory = λ path. false;
  read = λ path. none;
  walk = λ path. ok [];
}

abbrev kv_section : SectionSettings
kv_section = record empty_section {
  id = codes "id";
  kind = SectionKind.kv;
  ruleset_id = codes "id";
  ruleset_name = codes "name";
  declared_tokens = record { name = codes "user"; type = codes "STRING" } ∷ [];
}

abbrev loaded : MessageRule
loaded = record {
  id = codes "id";
  name = codes "name";
  filters = record { pattern = codes "b"; captures = [] } ∷ [];
  sections =
      section_rule (record empty_section { id = codes "id"; kind = SectionKind.mixed })
        (cons (section_rule kv_section nil) nil)
      ∷ [];
}

load_rules-loaded :
    load_rules test_yaml one_file test_libraries 9 (codes "/r/m.log") ≡ ok (loaded ∷ [])
unfolding load_rules str_eq text_at map_of collect sequence_of normalize_message_filter
    parse_section_node update_from lookup assign load_example_message nested match_message_filter
    search_capture rewrite_pattern_for_capture find_str validate_expected_tokens parse_values
    emplace first_non_empty_capture validate_absent_tokens
load_rules-loaded = refl

-- A reference is found two directories up.
resolve-found : resolve_message_path one_file (codes "/r/s/t/") (codes "m.log") ≡ codes "/r/m.log"
unfolding resolve_message_path str_eq is_absolute join_path parent_path
resolve-found = refl

resolve_loop-Nearest_example :
    Nearest one_file
      (codes "m.log")
      (codes "/r/s/t/")
      (resolve_loop one_file 8 (codes "m.log") (codes "/r/s/t/"))
resolve_loop-Nearest_example = resolve_loop-Nearest one_file (codes "m.log") (codes "/r/s/t/")

abbrev examples : List IdentificationExample
examples = record { message = codes "abc"; captures = [] } ∷ []

validate_identification_examples_iff_example :
    Passes (validate_identification_examples test_libraries loaded examples)
    ↔ All (Accepted test_libraries loaded.filters) examples
validate_identification_examples_iff_example =
    validate_identification_examples_iff test_libraries loaded examples

load_example_messages-loaded :
    load_example_messages test_yaml one_file (codes "/r/m.log") ≡ ok (codes "abc" ∷ [])
unfolding load_example_messages str_eq load_example_message contains
load_example_messages-loaded = refl

load_example_messages-Distinct_example : Distinct (codes "abc" ∷ [])
load_example_messages-Distinct_example =
    load_example_messages-Distinct test_yaml one_file (codes "/r/m.log") (codes "abc" ∷ [])
      load_example_messages-loaded

parse_section_node-Parses_example :
    Parses test_yaml []
      (codes "id")
      section_doc
      (parse_section_node test_yaml 9 [] (codes "id") section_doc)
parse_section_node-Parses_example =
    parse_section_node-Parses test_yaml [] (codes "id") (heights_of (λ path. file_doc)) 9
      section_doc (omega arith)

abbrev loaded_ruleset : ParserRuleSet Doc
loaded_ruleset = record {
  id = codes "id";
  name = codes "name";
  kind = RulesetParserKind.kv;
  definition_dir = codes "/r";
  bindings = [];
  tokens = record { name = codes "user"; type = codes "STRING" } ∷ [];
  dynamic_properties = [];
  regex_tokens = [];
  json_matches = [];
  json_tokens = [];
  examples = some (one ruleset_example_doc);
}

validate_ruleset_examples_iff_example :
    Passes (validate_ruleset_examples test_yaml one_file test_libraries loaded_ruleset)
    ↔ ExamplesHold test_yaml one_file test_libraries loaded_ruleset loaded_ruleset.examples
validate_ruleset_examples_iff_example =
    validate_ruleset_examples_iff test_yaml one_file test_libraries loaded_ruleset

load_parser_rules_file-loaded :
    for_each_rule_file one_file rules_path
      (load_parser_rules_file test_yaml one_file test_libraries)
      (codes "/r/m.log")
      []
    ≡ ok ((codes "name", loaded_ruleset) ∷ [])
unfolding for_each_rule_file load_parser_rules_file str_eq text_at map_of collect sequence_of
    for_all load_example_message nested validate_expected_tokens lookup parse_values emplace assign
    first_non_empty_capture validate_absent_tokens parent_path
load_parser_rules_file-loaded = refl

rulesets-Trusted_example :
    All (Trusted test_yaml one_file test_libraries) ((codes "name", loaded_ruleset) ∷ [])
rulesets-Trusted_example =
    rulesets-Trusted test_yaml one_file test_libraries (codes "/r/m.log")
      ((codes "name", loaded_ruleset) ∷ []) load_parser_rules_file-loaded
