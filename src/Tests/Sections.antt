-- ===== src/Tests/Sections.antt =====
-- Sections of the regex and of the JSON engine through src/RuleLoader.cpp.
use parser_framework.Base.{
  ◌≡◌, refl, ◌≢◌, Map, All, [], ◌∷◌, none, Str, codes, str_eq, compare_str, collect, lookup, assign,
  ok,
}
use parser_framework.Engines.Regex.{match_message_filter, search_capture}
use parser_framework.Pattern.{normalize_message_filter, rewrite_pattern_for_capture}
use parser_framework.Rules.Fields.{text_at, map_of, sequence_of, update_from, nested}
use parser_framework.Rules.Files.{
  load_rules, for_each_rule_file, rules_path, load_parser_rules_file,
}
use parser_framework.Rules.Loaded.{RuleOk, load_rules-Ok}
use parser_framework.Rules.Sections.{parse_section_node}
use parser_framework.Rules.{ParserRuleSet}
use parser_framework.Tests.Data.{test_libraries}
use parser_framework.Tests.Documents.{Doc, Docs, text, sequence, table, end, item, yaml_of}
use parser_framework.Tests.Rules.{one_file, one, field}
use parser_framework.Types.{MessageRule, SectionKind, empty_section, section_rule, nil}
use parser_framework.Yaml.{Yaml}

abbrev entry : Str → Str → Docs → Docs
entry name value rest = item name (text value) rest

abbrev regex_ruleset_doc : Doc
regex_ruleset_doc = table (
    entry (codes "id") (codes "r") (
      entry (codes "name") (codes "words") (
        entry (codes "parser") (codes "regex") (
          item (codes "regex_tokens")
            (one (
              table
                (entry (codes "name") (codes "word") (entry (codes "pattern") (codes "ab") end))))
            end))))

abbrev json_ruleset_doc : Doc
json_ruleset_doc = table (
    entry (codes "id") (codes "j") (
      entry (codes "name") (codes "query") (
        entry (codes "parser") (codes "json") (
          item (codes "json_matches") (one (field (codes "path") (codes "$.a")))
            (item (codes "json_tokens") (field (codes "b") (codes "$.b")) end)))))

abbrev engine_section_doc : Str → Str → Str → Doc
engine_section_doc id name parser =
    table (entry (codes "id") id (entry (codes "ruleset") name (entry (codes "parser") parser end)))

abbrev engines_message_doc : Doc
engines_message_doc = table (
    entry (codes "id") (codes "m") (
      entry (codes "name") (codes "M") (
        item (codes "message_filter") (one (field (codes "pattern") (codes "b"))) (
          item (codes "sections")
            (sequence (
              item [] (engine_section_doc (codes "x") (codes "words") (codes "regex"))
                (item [] (engine_section_doc (codes "y") (codes "query") (codes "json")) end)))
            end))))

abbrev engines_doc : Doc
engines_doc = table (
    item (codes "rules") (sequence (item [] regex_ruleset_doc (item [] json_ruleset_doc end)))
      (item (codes "messages") (one engines_message_doc) end))

abbrev engines_yaml : Yaml Doc
engines_yaml = yaml_of (λ path. engines_doc)

abbrev engines_rule : MessageRule
engines_rule = record {
  id = codes "m";
  name = codes "M";
  filters = record { pattern = codes "b"; captures = [] } ∷ [];
  sections =
      section_rule
        (record empty_section {
          id = codes "x";
          kind = SectionKind.free_text;
          ruleset_id = codes "r";
          ruleset_name = codes "words";
          regex_tokens = record { name = codes "word"; pattern = codes "ab"; group = 1 } ∷ [];
        })
        nil
      ∷ section_rule
          (record empty_section {
            id = codes "y";
            kind = SectionKind.json;
            ruleset_id = codes "j";
            ruleset_name = codes "query";
            json_matches = record { path = codes "$.a"; equals = none } ∷ [];
            json_tokens = record { name = codes "b"; path = codes "$.b" } ∷ [];
          })
          nil
      ∷ [];
}

load_rules-engines :
    load_rules engines_yaml one_file test_libraries 9 (codes "/r/m.log") ≡ ok (engines_rule ∷ [])
unfolding load_rules str_eq text_at map_of collect sequence_of normalize_message_filter
    parse_section_node update_from lookup assign nested match_message_filter search_capture
    rewrite_pattern_for_capture compare_str
load_rules-engines = refl

load_rules-Ok_example :
    (engines_rule ∷ [] ≢ [])
    × (rulesets : Map (ParserRuleSet Doc)) × (for_each_rule_file one_file rules_path
          (load_parser_rules_file engines_yaml one_file test_libraries)
          (codes "/r/m.log")
          []
        ≡ ok rulesets)
    × All (RuleOk rulesets) (engines_rule ∷ [])
load_rules-Ok_example =
    load_rules-Ok engines_yaml one_file test_libraries 9 (codes "/r/m.log") (engines_rule ∷ [])
      load_rules-engines
