-- ===== src/Rules/Files.antt =====
-- The files of rules: `load_rules` and `load_example_messages` of src/RuleLoader.cpp.
use parser_framework.Base.{
  ℕ, Bool, not, ◌&&◌, ◌||◌, List, [], ◌∷◌, ◌++◌, Option, none, some, if◌then◌else◌, is_empty, Str,
  codes, str_eq, contains, Map, assign, parent_path, Result, ok, err, ◌>>=◌, ◌>>◌, throw_if,
}
use parser_framework.Libraries.{Libraries}
use parser_framework.Messages.{Files, extension, sort}
use parser_framework.Rules.Examples.{validate_ruleset_examples}
use parser_framework.Rules.Identification.{parse_message_rule}
use parser_framework.Rules.Paths.{load_example_message}
use parser_framework.Rules.Rulesets.{parse_ruleset}
use parser_framework.Rules.{ParserRuleSet}
use parser_framework.Types.{MessageRule}
use parser_framework.Yaml.{Yaml}

-- A loop whose rounds may throw, over the state that they change.
unfoldable pub for_each : {A S : Type 0} → (A → S → Result S) → List A → S → Result S
for_each step [] state = ok state
for_each step (x ∷ rest) state = do state' ← step x state; for_each step rest state'

-- `extension == ".yaml" || extension == ".yml"`
unfoldable pub is_rule_file : Str → Bool
unfolding extension
is_rule_file path =
    let extension = extension path in
    str_eq extension (codes ".yaml") || str_eq extension (codes ".yml")

unfoldable pub rule_files : List (Str × Bool) → List Str
unfolding is_rule_file
rule_files [] = []
rule_files ((path, regular) ∷ rest) =
    let later = rule_files rest in if regular && is_rule_file path then path ∷ later else later

module _ (files : Files) where
  -- `for_each_rule_file`, and its copy `for_each_yaml_file` of src/ReportAnalyzer.cpp, which differ in
  -- the text of the error.
  unfoldable pub for_each_rule_file :
      {S : Type 0} → (Str → Str) → (Str → S → Result S) → Str → S → Result S
  unfolding for_each rule_files sort
  for_each_rule_file no_path handler input state =
      if files.is_regular_file input
      then handler input state
      else if not (files.is_directory input)
      then err (no_path input)
      else (do entries ← files.walk input; for_each handler (sort (rule_files entries)) state)

abbrev pub rules_path : Str → Str
rules_path path = codes "Rules path is not a file or directory [" ++ (path ++ codes "]")

abbrev pub no_rules_path : Str → Str
no_rules_path path = codes "Rules path does not exist [" ++ (path ++ codes "]")

abbrev pub no_rules : Str → Str
no_rules path = codes "No identification rules were loaded from [" ++ (path ++ codes "]")

module _ {Node : Type 0} (yaml : Yaml Node) where
  -- The nodes of `root[field]`, if there is a sequence: the loop of a file.
  abbrev pub nodes_of : Option Node → List Node
  nodes_of none = []
  nodes_of (some node) = if yaml.is_sequence node then yaml.items node else []

  unfoldable pub file_nodes : Str → Str → Result (List Node)
  file_nodes file field = do
    root ← yaml.load_file file
    found ← yaml.child root field
    ok (nodes_of found)

module _ {Node : Type 0} (yaml : Yaml Node) (files : Files) (lib : Libraries) where
  unfoldable pub load_ruleset :
      Str → Node → Map (ParserRuleSet Node) → Result (Map (ParserRuleSet Node))
  unfolding parse_ruleset validate_ruleset_examples
  load_ruleset file rule_node rulesets = do
    rules ← parse_ruleset yaml rule_node (parent_path file)
    validate_ruleset_examples yaml files lib rules
    ok (assign rules.name rules rulesets)

  unfoldable pub load_parser_rules_file :
      Str → Map (ParserRuleSet Node) → Result (Map (ParserRuleSet Node))
  unfolding file_nodes load_ruleset for_each
  load_parser_rules_file file rulesets = do
    rule_nodes ← file_nodes yaml file (codes "rules")
    for_each (load_ruleset file) rule_nodes rulesets

  unfoldable pub load_message_rule :
      ℕ → Map (ParserRuleSet Node) → Str → Node → List MessageRule → Result (List MessageRule)
  unfolding parse_message_rule
  load_message_rule fuel rulesets file message_node rules = do
    rule ← parse_message_rule yaml files lib fuel rulesets (parent_path file) message_node
    ok (rules ++ rule ∷ [])

  unfoldable pub load_identification_file :
      ℕ → Map (ParserRuleSet Node) → Str → List MessageRule → Result (List MessageRule)
  unfolding file_nodes load_message_rule for_each
  load_identification_file fuel rulesets file rules = do
    message_nodes ← file_nodes yaml file (codes "messages")
    for_each (load_message_rule fuel rulesets file) message_nodes rules

  -- All rulesets of all files are read before the first identification rule.
  unfoldable pub load_rules : ℕ → Str → Result (List MessageRule)
  unfolding for_each_rule_file load_parser_rules_file load_identification_file
  load_rules fuel path = do
    throw_if (not (files.exists path)) (no_rules_path path)
    rulesets ← for_each_rule_file files rules_path load_parser_rules_file path []
    rules ← for_each_rule_file files rules_path (load_identification_file fuel rulesets) path []
    throw_if (is_empty rules) (no_rules path)
    ok rules

module _ {Node : Type 0} (yaml : Yaml Node) (files : Files) where
  -- The messages so far: `seen` and `messages` hold the same strings, so one list stands for both.
  unfoldable pub add_message : Str → List Str → List Str
  add_message message messages =
      if contains messages message then messages else messages ++ message ∷ []

  unfoldable pub collect_example : Str → Node → List Str → Result (List Str)
  unfolding add_message
  collect_example file example messages = do
    message ← load_example_message files yaml example (parent_path file)
    ok (add_message message messages)

  unfoldable pub collect_definition : Str → Node → List Str → Result (List Str)
  unfolding collect_example for_each
  collect_definition file message_node messages = do
    examples ← yaml.child message_node (codes "examples")
    for_each (collect_example file) (nodes_of yaml examples) messages

  unfoldable pub collect_example_messages_from_file : Str → List Str → Result (List Str)
  unfolding file_nodes collect_definition for_each
  collect_example_messages_from_file file messages = do
    definitions ← file_nodes yaml file (codes "messages")
    for_each (collect_definition file) definitions messages

  unfoldable pub load_example_messages : Str → Result (List Str)
  unfolding for_each_rule_file collect_example_messages_from_file
  load_example_messages path = do
    throw_if (not (files.exists path)) (no_rules_path path)
    for_each_rule_file files rules_path collect_example_messages_from_file path []
