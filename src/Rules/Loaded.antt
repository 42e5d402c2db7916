-- ===== src/Rules/Loaded.antt =====
-- What the identification rules are that `load_rules` of src/RuleLoader.cpp returns.
use parser_framework.Base.{
  ℕ, false, not, List, [], ◌∷◌, ◌++◌, Option, none, some, ◌≡◌, ◌≢◌, is_empty, Str, Map, Result, ok,
  err, collect, collect-Ensures, Ensures, Ensures-ok, Ensures-err, Ensures-bind, Ensures-after,
  Ensures-if, Ensures-check, All,
}
use parser_framework.Libraries.{Libraries}
use parser_framework.Messages.{Files}
use parser_framework.Rules.Fields.{text_at, sequence_of}
use parser_framework.Rules.Files.{
  for_each, for_each_rule_file, rules_path, file_nodes, load_parser_rules_file, load_message_rule,
  load_identification_file, load_rules,
}
use parser_framework.Rules.Identification.{
  parse_message_rule, filter_nodes, section_nodes, parse_filter, validate_identification_examples,
}
use parser_framework.Rules.Sections.{parse_section_node}
use parser_framework.Rules.Sound.{SectionOk, section-Ok, collect-ne, and_not-empty}
use parser_framework.Rules.{ParserRuleSet}
use parser_framework.Types.{MessageRule}
use parser_framework.Yaml.{Yaml}

-- A property of the state that every round keeps.
pub for_each-Ensures :
    {A S : Type 0} (P : S → Type 0) (step : A → S → Result S)
    → ((x : A) (s : S) → P s → Ensures P (step x s))
    → (xs : List A) (s : S) → P s
    → Ensures P (for_each step xs s)
unfolding for_each
for_each-Ensures P step h [] s p = Ensures-ok s p
for_each-Ensures P step h (x ∷ xs) s p =
    Ensures-after (step x s) _ λ t e. for_each-Ensures P step h xs t ((h x s p).at t e)

module _ (files : Files) where
  pub for_each_rule_file-Ensures :
      {S : Type 0} (P : S → Type 0) (no_path : Str → Str) (handler : Str → S → Result S)
      → ((file : Str) (s : S) → P s → Ensures P (handler file s))
      → (path : Str) (s : S) → P s
      → Ensures P (for_each_rule_file files no_path handler path s)
  unfolding for_each_rule_file
  for_each_rule_file-Ensures P no_path handler h path s p =
      Ensures-if (files.is_regular_file path) (handler path s) _ (λ _. h path s p)
        (λ _.
          Ensures-if (not (files.is_directory path)) (err (no_path path)) _ (λ _. Ensures-err _)
            (λ _. Ensures-bind (files.walk path) _ λ entries. for_each-Ensures P handler h _ s p))

-- A rule has a filter, and all its sections are in order.
pub record RuleOk {Node : Type 0} (rulesets : Map (ParserRuleSet Node)) (rule : MessageRule)
    : Type 0 where
  pub filters : rule.filters ≢ []
  pub sections : All (SectionOk rulesets rule.id) rule.sections

All-append :
    {A : Type 0} (P : A → Type 0) (xs : List A) (y : A) → All P xs → P y → All P (xs ++ y ∷ [])
All-append P [] y h p = (p, tt)
All-append P (x ∷ xs) y h p = (h.0, All-append P xs y h.1 p)

module _ {Node : Type 0} (yaml : Yaml Node) (files : Files) (lib : Libraries) where
  filter_nodes-ne :
      (id : Str) (found : Option Node)
      → Ensures (λ nodes. nodes ≢ []) (filter_nodes yaml files lib id found)
  unfolding filter_nodes
  filter_nodes-ne id none = Ensures-err _
  filter_nodes-ne id (some filters) =
      Ensures-if _ _ _
        (λ e. Ensures-ok _ (and_not-empty (yaml.is_sequence filters) (yaml.items filters) e))
        (λ _. Ensures-err _)

  module _ (rulesets : Map (ParserRuleSet Node)) (fuel : ℕ) where
    parse_message_rule-Ok :
        (definition_dir : Str) (node : Node)
        → Ensures
            (RuleOk rulesets)
            (parse_message_rule yaml files lib fuel rulesets definition_dir node)
    unfolding parse_message_rule
    parse_message_rule-Ok definition_dir node = Ensures-bind (text_at yaml node _) _ λ id.
        Ensures-bind (text_at yaml node _) _ λ name.
          Ensures-bind (yaml.child node _) _ λ filters_node.
            Ensures-after (filter_nodes yaml files lib id filters_node) _ λ filter_list p.
              Ensures-after (collect (parse_filter yaml files lib) filter_list) _ λ filters q.
                Ensures-bind (yaml.child node _) _ λ sections_node.
                  Ensures-bind (section_nodes yaml files lib id sections_node) _ λ section_list.
                    Ensures-after (collect (parse_section_node yaml fuel rulesets id) section_list)
                      _
                      λ sections r. Ensures-bind (yaml.child node _) _ λ examples_node.
                        Ensures-bind (sequence_of yaml _ examples_node) _ λ examples.
                          Ensures-bind
                            (validate_identification_examples lib
                              (record {
                                id = id;
                                name = name;
                                filters = filters;
                                sections = sections;
                              })
                              examples)
                            _
                            λ _. Ensures-ok _ (record {
                              filters =
                                  collect-ne (parse_filter yaml files lib) filter_list filters
                                    ((filter_nodes-ne id filters_node).at filter_list p) q;
                              sections =
                                  (collect-Ensures _ _ (section-Ok yaml rulesets id fuel)
                                      section_list).at
                                    sections r;
                            })

    load_message_rule-Ok :
        (file : Str) (node : Node) (rules : List MessageRule)
        → All (RuleOk rulesets) rules
        → Ensures
            (All (RuleOk rulesets))
            (load_message_rule yaml files lib fuel rulesets file node rules)
    unfolding load_message_rule
    load_message_rule-Ok file node rules h =
        Ensures-after (parse_message_rule yaml files lib fuel rulesets _ node) _ λ rule e.
          Ensures-ok _
            (All-append (RuleOk rulesets) rules rule h ((parse_message_rule-Ok _ node).at rule e))

    load_file-Ok :
        (file : Str) (rules : List MessageRule)
        → All (RuleOk rulesets) rules
        → Ensures
            (All (RuleOk rulesets))
            (load_identification_file yaml files lib fuel rulesets file rules)
    unfolding load_identification_file
    load_file-Ok file rules h =
        Ensures-bind (file_nodes yaml file _) _
          λ nodes. for_each-Ensures _ _ (load_message_rule-Ok file) nodes rules h

  not_empty : {A : Type 0} (xs : List A) → is_empty xs ≡ false → xs ≢ []
  not_empty [] e = cc
  not_empty (x ∷ xs) e = λ n. cc n

  loaded-Ok :
      (fuel : ℕ) (path : Str)
      → Ensures
          (λ rules.
            rules ≢ []
            × (rulesets : Map (ParserRuleSet Node)) × (for_each_rule_file files rules_path
                  (load_parser_rules_file yaml files lib)
                  path
                  []
                ≡ ok rulesets)
            × All (RuleOk rulesets) rules)
          (load_rules yaml files lib fuel path)
  unfolding load_rules
  loaded-Ok fuel path = Ensures-check (not (files.exists path)) _ _ λ _.
      Ensures-after
        (for_each_rule_file files rules_path (load_parser_rules_file yaml files lib) path []) _
        λ rulesets p.
          Ensures-after
            (for_each_rule_file files rules_path
              (load_identification_file yaml files lib fuel rulesets) path [])
            _
            λ rules q. Ensures-check (is_empty rules) _ _ λ some_rule. Ensures-ok rules (
              not_empty rules some_rule,
              rulesets,
              p,
              (for_each_rule_file-Ensures files (All (RuleOk rulesets)) rules_path _
                    (load_file-Ok rulesets fuel) path [] tt).at
                  rules q,
            )

  -- If `load_rules` returns rules, there is one, each has a filter, and each section, also of the
  -- sections of a mixed one, is in order with the rulesets that the same files declare.
  pub load_rules-Ok :
      (fuel : ℕ) (path : Str) (rules : List MessageRule)
      → load_rules yaml files lib fuel path ≡ ok rules
      → rules ≢ []
        × (rulesets : Map (ParserRuleSet Node)) × (for_each_rule_file files rules_path
              (load_parser_rules_file yaml files lib)
              path
              []
            ≡ ok rulesets)
        × All (RuleOk rulesets) rules
  load_rules-Ok fuel path rules e = (loaded-Ok fuel path).at rules e
