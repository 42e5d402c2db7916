-- ===== src/Rules/Passed.antt =====
-- What it means that a ruleset passes its examples, in src/RuleLoader.cpp.
use parser_framework.Base.{
  Bool, true, false, List, [], map, Option, none, some, ◌≡◌, refl, ◌↔◌, if◌then◌else◌, is_empty,
  is_some, Str, codes, Map, lookup, Result, ok, ◌>>=◌, >>=-eq-ok, throw_if, Passes, and_iff,
  for_all_iff, All,
}
use parser_framework.Libraries.{Libraries}
use parser_framework.Messages.{Files}
use parser_framework.Property
use parser_framework.Rules.Accepted.{compare_value_iff, throw_first_iff}
use parser_framework.Rules.Examples.{
  failed, property_failed, example_token, parse_example, validate_properties, validate_message,
  validate_example, validate_examples_node, validate_ruleset_examples,
}
use parser_framework.Rules.Expected.{
  Complaints, complaints, ruleset_example, check_entry, validate_map, validate_expected_tokens,
  check_absent, validate_absent_tokens,
}
use parser_framework.Rules.Fields.{nested}
use parser_framework.Rules.Paths.{load_example_message}
use parser_framework.Rules.{ParserRuleSet}
use parser_framework.Types.{empty_result}
use parser_framework.Yaml.{Yaml}

-- A check that follows a call.
bind-Passes :
    {A : Type 0} (P : A → Type 0) (m : Result A) (f : A → Result (Unit {0}))
    → ((a : A) → Passes (f a) ↔ P a)
    → Passes (m >>= f) ↔ ((a : A) × (m ≡ ok a) × P a)
bind-Passes P m f h =
    (λ e. let (a, p, q) = >>=-eq-ok m f e in (a, p, (h a).0 q), λ (a, p, q). rw p ((h a).1 q))

if-Passes :
    {P Q : Type 0} (b : Bool) (x y : Result (Unit {0}))
    → Passes x ↔ P
    → Passes y ↔ Q
    → Passes (if b then x else y) ↔ (if b then P else Q)
if-Passes true x y h k = h
if-Passes false x y h k = k

nothing-Passes : Passes (ok tt) ↔ Unit {0}
nothing-Passes = (λ _. tt, λ _. refl)

absent_iff :
    (text : Str) (found : Option Str) → Passes (throw_if (is_some found) text) ↔ (found ≡ none)
absent_iff text none = (λ _. refl, λ _. refl)
absent_iff text (some x) = (λ h. absurd (cc h), λ h. absurd (cc h))

module _ {Node : Type 0} (yaml : Yaml Node) where
  -- An entry of a table of expected values, each of which was parsed.
  abbrev pub EntryHolds : Map Str → Node × Node → Type 0
  EntryHolds parsed (k, v) =
      (name : Str) × (yaml.as_string k ≡ ok name)
      × (expected : Str) × (yaml.as_string v ≡ ok expected)
      × (lookup name parsed ≡ some expected)

  abbrev pub TableHolds : Map Str → Option Node → Type 0
  TableHolds parsed none = Unit {0}
  TableHolds parsed (some node) =
      if yaml.is_map node then All (EntryHolds parsed) (yaml.entries node) else Unit {0}

  abbrev pub NameAbsent : Map Str → Node → Type 0
  NameAbsent parsed node =
      (name : Str) × (yaml.as_string node ≡ ok name) × (lookup name parsed ≡ none)

  abbrev pub ListAbsent : Map Str → Option Node → Type 0
  ListAbsent parsed none = Unit {0}
  ListAbsent parsed (some node) =
      if yaml.is_sequence node then All (NameAbsent parsed) (yaml.items node) else Unit {0}

  entry_iff :
      (texts : Complaints) (parsed : Map Str) (entry : Node × Node)
      → Passes (check_entry yaml texts parsed entry) ↔ EntryHolds parsed entry
  unfolding check_entry
  entry_iff texts parsed (k, v) =
      let e = bind-Passes _ (yaml.as_string k) _ λ name.
        bind-Passes _ (yaml.as_string v) _
          λ expected. compare_value_iff texts name expected (lookup name parsed) in
      (
        λ h. let (name, p, q) = e.0 h in (name, p, q.0, q.1, q.2),
        λ (name, p, expected, q, r). e.1 (name, p, (expected, q, r)),
      )

  table_iff :
      (texts : Complaints) (parsed : Map Str) (found : Option Node)
      → Passes (validate_map yaml texts parsed found) ↔ TableHolds parsed found
  unfolding validate_map
  table_iff texts parsed none = nothing-Passes
  table_iff texts parsed (some node) =
      if-Passes (yaml.is_map node) _ _
        (for_all_iff (EntryHolds parsed) _ (entry_iff texts parsed) (yaml.entries node))
        nothing-Passes

  absent_name_iff :
      (name : Str) (parsed : Map Str) (node : Node)
      → Passes (check_absent yaml name parsed node) ↔ NameAbsent parsed node
  unfolding check_absent
  absent_name_iff name parsed node =
      bind-Passes _ (yaml.as_string node) _ λ absent. absent_iff _ (lookup absent parsed)

  list_iff :
      (name : Str) (parsed : Map Str) (found : Option Node)
      → Passes (validate_absent_tokens yaml name found parsed) ↔ ListAbsent parsed found
  unfolding validate_absent_tokens
  list_iff name parsed none = nothing-Passes
  list_iff name parsed (some node) =
      if-Passes (yaml.is_sequence node) _ _
        (for_all_iff (NameAbsent parsed) _ (absent_name_iff name parsed) (yaml.items node))
        nothing-Passes

module _ {Node : Type 0} (yaml : Yaml Node) (files : Files) (lib : Libraries)
    (rules : ParserRuleSet Node) where
  -- The properties of the values of an example.
  abbrev pub properties_of : Map Str → Map Str × List Str
  properties_of parsed =
      Property.evaluate lib rules.dynamic_properties
        (record empty_result { tokens = map (example_token rules.name) parsed }) []

  abbrev pub PropertiesHold : Node → Map Str → Type 0
  PropertiesHold example parsed =
      ((properties_of parsed).1 ≡ [])
      × (expected : Option Node) × (nested yaml example (codes "expect") (codes "properties")
          ≡ ok expected)
      × TableHolds yaml (properties_of parsed).0 expected

  -- The engine of the ruleset parses the message without an error, and finds what is expected of the
  -- values, none that is to be absent, and what is expected of the dynamic properties, if it has any.
  abbrev pub ExampleHolds : Node → Type 0
  ExampleHolds example =
      (message : Str) × (load_example_message files yaml example rules.definition_dir ≡ ok message)
      × ((parse_example yaml files lib rules message rules.kind).1 ≡ [])
      × (expected : Option Node) × (nested yaml example (codes "expect") (codes "tokens")
          ≡ ok expected)
      × TableHolds yaml (parse_example yaml files lib rules message rules.kind).0 expected
      × (absent : Option Node) × (nested yaml example (codes "expect") (codes "absent_tokens")
          ≡ ok absent)
      × ListAbsent yaml (parse_example yaml files lib rules message rules.kind).0 absent
      × (if is_empty rules.dynamic_properties
          then Unit {0}
          else PropertiesHold example (parse_example yaml files lib rules message rules.kind).0)

  abbrev pub ExamplesHold : Option Node → Type 0
  ExamplesHold none = Unit {0}
  ExamplesHold (some node) =
      if yaml.is_sequence node then All ExampleHolds (yaml.items node) else Unit {0}

  properties_iff :
      (example : Node) (parsed : Map Str)
      → Passes (validate_properties yaml files lib rules example parsed)
        ↔ PropertiesHold example parsed
  unfolding validate_properties
  properties_iff example parsed =
      let e = and_iff _ _ (throw_first_iff (property_failed rules.name) (properties_of parsed).1) (
        bind-Passes _ (nested yaml example (codes "expect") (codes "properties")) _ λ expected.
          table_iff yaml (complaints (ruleset_example rules.name) (codes "property"))
            (properties_of parsed).0 expected) in
      (λ h. let r = e.0 h in (r.0, r.1.0, r.1.1, r.1.2), λ (p, x, q, t). e.1 (p, (x, q, t)))

  example_iff :
      (example : Node)
      → Passes (validate_example yaml files lib rules example) ↔ ExampleHolds example
  unfolding validate_example validate_message validate_expected_tokens
  example_iff example =
      let e =
        bind-Passes _ (load_example_message files yaml example rules.definition_dir) _ λ message.
          let parsed = (parse_example yaml files lib rules message rules.kind).0 in
          and_iff _ _
            (throw_first_iff (failed rules.name)
              (parse_example yaml files lib rules message rules.kind).1)
            (bind-Passes _ (nested yaml example (codes "expect") (codes "tokens")) _ λ expected.
              and_iff _ _
                (table_iff yaml (complaints (ruleset_example rules.name) (codes "token")) parsed
                  expected)
                (bind-Passes _ (nested yaml example (codes "expect") (codes "absent_tokens")) _
                  λ absent. and_iff _ _ (list_iff yaml rules.name parsed absent) (
                    if-Passes (is_empty rules.dynamic_properties) _ _ nothing-Passes
                      (properties_iff example parsed)))) in
      (
        λ h.
            let (message, p, q) = e.0 h in
            let (expected, r, t) = q.1 in
            let (absent, u, v) = t.1 in (message, p, q.0, expected, r, t.0, absent, u, v.0, v.1),
        λ (message, p, q, expected, r, t, absent, u, v, w).
            e.1 (message, p, (q, (expected, r, (t, (absent, u, (v, w)))))),
      )

  node_iff :
      (found : Option Node)
      → Passes (validate_examples_node yaml files lib rules found) ↔ ExamplesHold found
  unfolding validate_examples_node
  node_iff none = nothing-Passes
  node_iff (some node) =
      if-Passes (yaml.is_sequence node) _ _
        (for_all_iff ExampleHolds _ example_iff (yaml.items node)) nothing-Passes

  -- A ruleset passes its examples if, and only if, each of them, where there is a sequence of some, has
  -- a message that the engine of the ruleset parses without an error, with all values that the example
  -- expects, none that is to be absent, and all properties that it expects, if the ruleset has any.
  pub validate_ruleset_examples_iff :
      Passes (validate_ruleset_examples yaml files lib rules) ↔ ExamplesHold rules.examples
  unfolding validate_ruleset_examples
  validate_ruleset_examples_iff = node_iff rules.examples
