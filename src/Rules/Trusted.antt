-- ===== src/Rules/Trusted.antt =====
-- The rulesets that `load_rules` of src/RuleLoader.cpp reads before the identification rules.
use Prim.Native.Nat.{Ordering}
use parser_framework.Base.{
  [], ◌∷◌, ◌≡◌, refl, Str, Map, assign, ok, Ensures, Ensures-ok, Ensures-bind, Ensures-after, All,
  compare_str,
}
use parser_framework.Libraries.{Libraries}
use parser_framework.Messages.{Files}
use parser_framework.Rules.Examples.{validate_ruleset_examples}
use parser_framework.Rules.Files.{
  for_each_rule_file, rules_path, file_nodes, load_ruleset, load_parser_rules_file,
}
use parser_framework.Rules.Loaded.{for_each-Ensures, for_each_rule_file-Ensures}
use parser_framework.Rules.Passed.{ExamplesHold, validate_ruleset_examples_iff}
use parser_framework.Rules.Rulesets.{parse_ruleset}
use parser_framework.Rules.{ParserRuleSet}
use parser_framework.Yaml.{Yaml}

All-assign :
    {V : Type 0} (P : Str × V → Type 0) (k : Str) (v : V) (m : Map V)
    → P (k, v)
    → All P m
    → All P (assign k v m)
unfolding assign
All-assign P k v [] p h = (p, tt)
All-assign P k v ((j, w) ∷ m) p h =
    elim (compare_str k j)
      as (λ o. All P (elim o [
        | Ordering.lt ↦ (k, v) ∷ (j, w) ∷ m
        | Ordering.eq ↦ (k, v) ∷ m
        | Ordering.gt ↦ (j, w) ∷ assign k v m
      ])) [
        | Ordering.lt ↦ (p, h)
        | Ordering.eq ↦ (p, h.1)
        | Ordering.gt ↦ (h.0, All-assign P k v m p h.1)
      ]

module _ {Node : Type 0} (yaml : Yaml Node) (files : Files) (lib : Libraries) where
  -- A ruleset stands under its own name, and passes its examples.
  abbrev pub Trusted : Str × ParserRuleSet Node → Type 0
  Trusted (name, rules) = (rules.name ≡ name) × ExamplesHold yaml files lib rules rules.examples

  load_ruleset-Trusted :
      (file : Str) (node : Node) (rulesets : Map (ParserRuleSet Node))
      → All Trusted rulesets
      → Ensures (All Trusted) (load_ruleset yaml files lib file node rulesets)
  unfolding load_ruleset
  load_ruleset-Trusted file node rulesets h = Ensures-bind (parse_ruleset yaml node _) _ λ rules.
      Ensures-after (validate_ruleset_examples yaml files lib rules) _ λ _ passed. Ensures-ok _ (
        All-assign Trusted rules.name rules rulesets
          (refl, (validate_ruleset_examples_iff yaml files lib rules).0 passed) h)

  load_file-Trusted :
      (file : Str) (rulesets : Map (ParserRuleSet Node))
      → All Trusted rulesets
      → Ensures (All Trusted) (load_parser_rules_file yaml files lib file rulesets)
  unfolding load_parser_rules_file
  load_file-Trusted file rulesets h =
      Ensures-bind (file_nodes yaml file _) _
        λ nodes. for_each-Ensures (All Trusted) _ (load_ruleset-Trusted file) nodes rulesets h

  -- Every ruleset that is read from the files stands under its own name, and has passed its examples.
  pub rulesets-Trusted :
      (path : Str) (rulesets : Map (ParserRuleSet Node))
      → for_each_rule_file files rules_path (load_parser_rules_file yaml files lib) path []
        ≡ ok rulesets
      → All Trusted rulesets
  rulesets-Trusted path rulesets e =
      (for_each_rule_file-Ensures files (All Trusted) rules_path _ load_file-Trusted path [] tt).at
        rulesets e
