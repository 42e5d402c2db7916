-- ===== src/Rules/Sound.antt =====
-- What the sections are that `parse_section_node` of src/RuleLoader.cpp returns.
use mathlib.Core.Path.{subst}
use parser_framework.Base.{
  ℕ, zero, suc, Bool, true, false, not, ◌&&◌, ◌||◌, List, [], ◌∷◌, Option, none, some, ◌≡◌, ◌≢◌,
  refl, sym, if◌then◌else◌, is_empty, Str, codes, str_eq, contains, Map, lookup, Result, ok,
  collect, collect-Ensures, Ensures, Ensures-ok, Ensures-err, Ensures-bind, Ensures-after,
  Ensures-if, Ensures-check, All, arith, >>=-eq-ok,
}
use parser_framework.Rules.Fields.{text_at}
use parser_framework.Rules.Sections.{
  kind_eq, sections_of, parse_settings, fill_section, use_ruleset, parse_leaf, child_nodes,
  parse_mixed, parse_section_node,
}
use parser_framework.Rules.{ParserRuleSet, RulesetParserKind}
use parser_framework.Types.{
  SectionKind, SectionSettings, SectionRule, section_rule, Sections, nil, cons,
}
use parser_framework.Yaml.{Yaml}

-- The engine of a parser.
abbrev pub section_kind : RulesetParserKind → SectionKind
section_kind RulesetParserKind.kv = SectionKind.kv
section_kind RulesetParserKind.json = SectionKind.json
section_kind RulesetParserKind.regex = SectionKind.free_text

-- What a section has for its engine alone: the tokens that a regex finds, or the matches and the tokens
-- of a JSON query.
abbrev pub EngineFields :
    {Node : Type 0} → RulesetParserKind → ParserRuleSet Node → SectionSettings → Type 0
EngineFields RulesetParserKind.kv rules s = Unit
EngineFields RulesetParserKind.json rules s =
    (s.json_matches ≡ rules.json_matches) × (s.json_tokens ≡ rules.json_tokens)
EngineFields RulesetParserKind.regex rules s = s.regex_tokens ≡ rules.regex_tokens

-- A section is filled from the ruleset of its name, which is bound to the rule, and has the engine of
-- that ruleset: its id, its tokens, its dynamic properties and what its engine reads are the ruleset's.
pub record LeafOk {Node : Type 0} (rulesets : Map (ParserRuleSet Node)) (rule_id : Str)
    (s : SectionSettings) : Type 0 where
  pub rules : ParserRuleSet Node
  pub named : is_empty s.ruleset_name ≡ false
  pub found : lookup s.ruleset_name rulesets ≡ some rules
  pub bound : (is_empty rules.bindings || contains rules.bindings rule_id) ≡ true
  pub ruleset_id : s.ruleset_id ≡ rules.id
  pub kind : s.kind ≡ section_kind rules.kind
  pub declared_tokens : s.declared_tokens ≡ rules.tokens
  pub dynamic_properties : s.dynamic_properties ≡ rules.dynamic_properties
  pub engine : EngineFields rules.kind rules s

-- A section of kind `MIXED` has children, all in order; any other has none, and its ruleset.
mutual
  pub data SectionOk {Node : Type 0} (rulesets : Map (ParserRuleSet Node)) (rule_id : Str)
      : SectionRule → Type 0 where
    leaf :
        (s : SectionSettings)
        → LeafOk rulesets rule_id s
        → SectionOk rulesets rule_id (section_rule s nil)
    mixed :
        (s : SectionSettings) (child : SectionRule) (rest : Sections)
        → s.kind ≡ SectionKind.mixed
        → SectionsOk rulesets rule_id (cons child rest)
        → SectionOk rulesets rule_id (section_rule s (cons child rest))

  pub data SectionsOk {Node : Type 0} (rulesets : Map (ParserRuleSet Node)) (rule_id : Str)
      : Sections → Type 0 where
    end : SectionsOk rulesets rule_id nil
    next :
        (s : SectionRule) (rest : Sections)
        → SectionOk rulesets rule_id s
        → SectionsOk rulesets rule_id rest
        → SectionsOk rulesets rule_id (cons s rest)

kind_eq→eq : (a b : RulesetParserKind) → kind_eq a b ≡ true → a ≡ b
kind_eq→eq a b h = ground arith

pub collect-ne :
    {A B : Type 0} (f : A → Result B) (xs : List A) (ys : List B)
    → xs ≢ []
    → collect f xs ≡ ok ys
    → ys ≢ []
unfolding collect
collect-ne f [] ys ne e = absurd (ne refl)
collect-ne f (x ∷ xs) ys ne e =
    let (y, p, q) = >>=-eq-ok (f x) _ e in
    let (zs, r, t) = >>=-eq-ok (collect f xs) _ q in λ n. cc (t, n)

and-right : (a b : Bool) → (a && b) ≡ true → b ≡ true
and-right a b h = ground arith

absurd_and : (b : Bool) → (b && false) ≢ true
absurd_and b h = ground arith

pub and_not-empty :
    {A : Type 0} (b : Bool) (xs : List A) → (b && not (is_empty xs)) ≡ true → xs ≢ []
and_not-empty b [] e = absurd (absurd_and b e)
and_not-empty b (x ∷ xs) e = λ n. cc n

not-false : (b : Bool) → not b ≡ false → b ≡ true
not-false b h = ground arith

module _ {Node : Type 0} (yaml : Yaml Node) (rulesets : Map (ParserRuleSet Node))
    (rule_id : Str) where
  sections_of-Ok :
      (xs : List SectionRule)
      → All (SectionOk rulesets rule_id) xs
      → SectionsOk rulesets rule_id (sections_of xs)
  unfolding sections_of
  sections_of-Ok [] h = end
  sections_of-Ok (x ∷ xs) h = next x (sections_of xs) h.0 (sections_of-Ok xs h.1)

  leaf_of :
      (s : SectionSettings) (rules : ParserRuleSet Node)
      → is_empty s.ruleset_name ≡ false
      → lookup s.ruleset_name rulesets ≡ some rules
      → (is_empty rules.bindings || contains rules.bindings rule_id) ≡ true
      → s.ruleset_id ≡ rules.id
      → s.kind ≡ section_kind rules.kind
      → s.declared_tokens ≡ rules.tokens
      → s.dynamic_properties ≡ rules.dynamic_properties
      → EngineFields rules.kind rules s
      → SectionOk rulesets rule_id (section_rule s nil)
  leaf_of s rules named found bound id kind tokens properties engine = leaf s (record {
    rules = rules;
    named = named;
    found = found;
    bound = bound;
    ruleset_id = id;
    kind = kind;
    declared_tokens = tokens;
    dynamic_properties = properties;
    engine = engine;
  })

  module _ (section : SectionSettings) (parser : Str) (rules : ParserRuleSet Node)
      (named : is_empty section.ruleset_name ≡ false)
      (found : lookup section.ruleset_name rulesets ≡ some rules) where
    -- One of the three branches, for the engine `k`.
    branch-Ok :
        (k : RulesetParserKind) (name : Str) (s : SectionSettings) (rest : Result SectionRule)
        → is_empty s.ruleset_name ≡ false
        → lookup s.ruleset_name rulesets ≡ some rules
        → (is_empty rules.bindings || contains rules.bindings rule_id) ≡ true
        → s.ruleset_id ≡ rules.id
        → s.kind ≡ section_kind k
        → s.declared_tokens ≡ rules.tokens
        → s.dynamic_properties ≡ rules.dynamic_properties
        → EngineFields k rules s
        → Ensures (SectionOk rulesets rule_id) rest
        → Ensures
            (SectionOk rulesets rule_id)
            (if str_eq parser name && kind_eq rules.kind k then ok (section_rule s nil) else rest)
    branch-Ok k name s rest named' found' bound id kind tokens properties engine h =
        Ensures-if (str_eq parser name && kind_eq rules.kind k) (ok (section_rule s nil)) rest
          (λ e.
            let same = sym (kind_eq→eq rules.kind k (and-right (str_eq parser name) _ e)) in
            Ensures-ok _ (
              leaf_of s rules named' found' bound id
                (subst (λ j. s.kind ≡ section_kind j) same kind) tokens properties
                (subst (λ j. EngineFields j rules s) same engine)))
          (λ _. h)

    fill-Ok :
        (is_empty rules.bindings || contains rules.bindings rule_id) ≡ true
        → section.ruleset_id ≡ rules.id
        → Ensures (SectionOk rulesets rule_id) (fill_section yaml section parser rules)
    unfolding fill_section
    fill-Ok bound id =
        branch-Ok RulesetParserKind.kv _
          (record section {
            kind = SectionKind.kv;
            declared_tokens = rules.tokens;
            dynamic_properties = rules.dynamic_properties;
          })
          _ named found bound id refl refl refl tt
          (branch-Ok RulesetParserKind.json _
            (record section {
              kind = SectionKind.json;
              declared_tokens = rules.tokens;
              dynamic_properties = rules.dynamic_properties;
              json_matches = rules.json_matches;
              json_tokens = rules.json_tokens;
            })
            _ named found bound id refl refl refl (refl, refl)
            (branch-Ok RulesetParserKind.regex _
              (record section {
                kind = SectionKind.free_text;
                declared_tokens = rules.tokens;
                dynamic_properties = rules.dynamic_properties;
                regex_tokens = rules.regex_tokens;
              })
              _ named found bound id refl refl refl refl (Ensures-err _)))

  use-Ok :
      (section : SectionSettings) (parser : Str) (found : Option (ParserRuleSet Node))
      → is_empty section.ruleset_name ≡ false
      → lookup section.ruleset_name rulesets ≡ found
      → Ensures (SectionOk rulesets rule_id) (use_ruleset yaml rule_id section parser found)
  unfolding use_ruleset
  use-Ok section parser none named e = Ensures-err _
  use-Ok section parser (some rules) named e = Ensures-check _ _ _ λ bound.
      fill-Ok (record section { ruleset_id = rules.id }) parser rules named e (not-false _ bound)
        refl

  leaf-Ok :
      (section : SectionSettings) (parser : Str)
      → Ensures (SectionOk rulesets rule_id) (parse_leaf yaml rulesets rule_id section parser)
  unfolding parse_leaf
  leaf-Ok section parser = Ensures-check _ _ _ λ named. use-Ok section parser _ named refl

  mixed-Ok :
      (section : SectionSettings) (children : List SectionRule)
      → children ≢ []
      → All (SectionOk rulesets rule_id) children
      → SectionOk rulesets rule_id
          (section_rule (record section { kind = SectionKind.mixed }) (sections_of children))
  unfolding sections_of
  mixed-Ok section [] ne all = absurd (ne refl)
  mixed-Ok section (child ∷ rest) ne all =
      mixed _ child (sections_of rest) refl
        (next child (sections_of rest) all.0 (sections_of-Ok rest all.1))

  child_nodes-ne :
      (id : Str) (found : Option Node) → Ensures (λ nodes. nodes ≢ []) (child_nodes yaml id found)
  unfolding child_nodes
  child_nodes-ne id none = Ensures-err _
  child_nodes-ne id (some children) =
      Ensures-if _ _ _
        (λ e. Ensures-ok _ (and_not-empty (yaml.is_sequence children) (yaml.items children) e))
        (λ _. Ensures-err _)

  parse_mixed-Ok :
      (parse_child : Node → Result SectionRule)
      → ((child : Node) → Ensures (SectionOk rulesets rule_id) (parse_child child))
      → (section : SectionSettings) (node : Node)
      → Ensures (SectionOk rulesets rule_id) (parse_mixed yaml parse_child section node)
  unfolding parse_mixed
  parse_mixed-Ok parse_child h section node = Ensures-bind (yaml.child node _) _ λ found.
      Ensures-after (child_nodes yaml section.id found) _ λ nodes e.
        Ensures-after (collect parse_child nodes) _ λ children p. Ensures-ok _ (
          mixed-Ok section children
            (collect-ne parse_child nodes children ((child_nodes-ne section.id found).at nodes e) p)
            ((collect-Ensures _ parse_child h nodes).at children p))

  -- A section that is parsed, however deep, is in order.
  pub section-Ok :
      (fuel : ℕ) (node : Node)
      → Ensures (SectionOk rulesets rule_id) (parse_section_node yaml fuel rulesets rule_id node)
  unfolding parse_section_node
  section-Ok zero node = Ensures-err _
  section-Ok (suc fuel) node = Ensures-bind (parse_settings yaml node) _ λ section.
      Ensures-bind (text_at yaml node _) _ λ parser.
        Ensures-if (str_eq parser (codes "mixed")) _ _
          (λ _. parse_mixed-Ok _ (section-Ok fuel) section node) (λ _. leaf-Ok section parser)
