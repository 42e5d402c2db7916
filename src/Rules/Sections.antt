-- ===== src/Rules/Sections.antt =====
-- `parse_section_node` of src/RuleLoader.cpp.
use parser_framework.Base.{
  ℕ, zero, suc, Bool, true, false, not, ◌&&◌, ◌||◌, List, [], ◌∷◌, ◌++◌, Option, none, some,
  if◌then◌else◌, is_empty, Str, codes, str_eq, contains, Map, lookup, Result, ok, err, ◌>>=◌, ◌>>◌,
  throw_if, collect,
}
use parser_framework.Rules.Fields.{text_at, update_from}
use parser_framework.Rules.{ParserRuleSet, RulesetParserKind}
use parser_framework.Types.{
  SectionKind, SectionSettings, empty_section, SectionRule, section_rule, Sections, nil, cons,
}
use parser_framework.Yaml.{Yaml}

abbrev pub no_identity : Str
no_identity = codes "Section is missing an id, extract, or ruleset reference"

abbrev pub no_children : Str → Str
no_children id = codes "Mixed section [" ++ (id ++ codes "] has no child sections")

abbrev pub no_ruleset : Str → Str
no_ruleset id = codes "Section [" ++ (id ++ codes "] is missing a ruleset reference")

abbrev pub unknown_ruleset : Str → Str
unknown_ruleset name = codes "Unknown ruleset [" ++ (name ++ codes "]")

abbrev pub not_bound : Str → Str → Str
not_bound name rule_id =
    codes "Ruleset ["
    ++ (name ++ (codes "] is not bound to identification rule [" ++ (rule_id ++ codes "]")))

abbrev pub parser_mismatch : SectionSettings → Str → Str
parser_mismatch section parser =
    codes "Section ["
    ++ (section.id
        ++ (codes "] parser ["
            ++ (parser
                ++ (codes "] does not match ruleset [" ++ (section.ruleset_name ++ codes "]")))))

-- The recursion is deeper than the fuel, which a document of that height never shows.
abbrev pub too_deep : Str
too_deep = codes "out of fuel"

abbrev pub kind_eq : RulesetParserKind → RulesetParserKind → Bool
kind_eq RulesetParserKind.kv RulesetParserKind.kv = true
kind_eq RulesetParserKind.json RulesetParserKind.json = true
kind_eq RulesetParserKind.regex RulesetParserKind.regex = true
kind_eq _ _ = false

unfoldable pub sections_of : List SectionRule → Sections
sections_of [] = nil
sections_of (section ∷ rest) = cons section (sections_of rest)

module _ {Node : Type 0} (yaml : Yaml Node) where
  -- The last of the three places that a section can take its id from.
  abbrev pub id_from_ruleset : Option Node → Result Str
  id_from_ruleset none = err no_identity
  id_from_ruleset (some ruleset_node) = yaml.as_string ruleset_node

  abbrev pub id_from_extract : Node → Option Node → Result Str
  id_from_extract node (some extract) = yaml.as_string extract
  id_from_extract node none = do found ← yaml.child node (codes "ruleset"); id_from_ruleset found

  abbrev pub id_from : Node → Option Node → Result Str
  id_from node (some id) = yaml.as_string id
  id_from node none = do found ← yaml.child node (codes "extract"); id_from_extract node found

  unfoldable pub section_id : Node → Result Str
  section_id node = do found ← yaml.child node (codes "id"); id_from node found

  abbrev pub some_string : Node → Result (Option Str)
  some_string node = do text ← yaml.as_string node; ok (some text)

  -- The settings of a locator, under three names.
  unfoldable pub update_locator : SectionSettings → Node → Str → Str → Str → Result SectionSettings
  update_locator section node pattern_name group_name multiple_name = do
    locator_pattern ← update_from yaml some_string node pattern_name section.locator_pattern
    locator_group ← update_from yaml yaml.as_size node group_name section.locator_group
    allow_multiple ← update_from yaml yaml.as_bool node multiple_name section.allow_multiple
    ok (record section {
      locator_pattern = locator_pattern;
      locator_group = locator_group;
      allow_multiple = allow_multiple;
    })

  unfoldable pub apply_locator : SectionSettings → Option Node → Result SectionSettings
  unfolding update_locator
  apply_locator section none = ok section
  apply_locator section (some locator) =
      if yaml.is_map locator
      then update_locator section locator (codes "pattern") (codes "group") (codes "multiple")
      else ok section

  unfoldable pub apply_locator_settings : SectionSettings → Node → Result SectionSettings
  unfolding apply_locator
  apply_locator_settings section node = do
    section' ←
        update_locator section node (codes "locator_pattern") (codes "locator_group")
          (codes "allow_multiple")
    locator ← yaml.child node (codes "locator")
    apply_locator section' locator

  -- What `parse_section_node` does before it reads the parser.
  unfoldable pub parse_settings : Node → Result SectionSettings
  unfolding section_id apply_locator_settings
  parse_settings node = do
    id ← section_id node
    extract_name ← update_from yaml yaml.as_string node (codes "extract") []
    ruleset_name ← update_from yaml yaml.as_string node (codes "ruleset") []
    apply_locator_settings
        (record empty_section { id = id; extract_name = extract_name; ruleset_name = ruleset_name })
        node

  -- The members of a section that its ruleset gives.
  unfoldable pub fill_section : SectionSettings → Str → ParserRuleSet Node → Result SectionRule
  fill_section section parser rules =
      if str_eq parser (codes "kv") && kind_eq rules.kind RulesetParserKind.kv
      then ok (
          section_rule
            (record section {
              kind = SectionKind.kv;
              declared_tokens = rules.tokens;
              dynamic_properties = rules.dynamic_properties;
            })
            nil)
      else if str_eq parser (codes "json") && kind_eq rules.kind RulesetParserKind.json
      then ok (
          section_rule
            (record section {
              kind = SectionKind.json;
              declared_tokens = rules.tokens;
              dynamic_properties = rules.dynamic_properties;
              json_matches = rules.json_matches;
              json_tokens = rules.json_tokens;
            })
            nil)
      else if str_eq parser (codes "regex") && kind_eq rules.kind RulesetParserKind.regex
      then ok (
          section_rule
            (record section {
              kind = SectionKind.free_text;
              declared_tokens = rules.tokens;
              dynamic_properties = rules.dynamic_properties;
              regex_tokens = rules.regex_tokens;
            })
            nil)
      else err (parser_mismatch section parser)

  -- The test of the bindings.
  unfoldable pub is_bound : Str → ParserRuleSet Node → Bool
  is_bound rule_id rules = is_empty rules.bindings || contains rules.bindings rule_id

  unfoldable pub use_ruleset :
      Str → SectionSettings → Str → Option (ParserRuleSet Node) → Result SectionRule
  unfolding fill_section is_bound
  use_ruleset rule_id section parser none = err (unknown_ruleset section.ruleset_name)
  use_ruleset rule_id section parser (some rules) = do
    throw_if (not (is_bound rule_id rules)) (not_bound section.ruleset_name rule_id)
    fill_section (record section { ruleset_id = rules.id }) parser rules

  -- The section of any parser but `mixed`.
  unfoldable pub parse_leaf :
      Map (ParserRuleSet Node) → Str → SectionSettings → Str → Result SectionRule
  unfolding use_ruleset
  parse_leaf rulesets rule_id section parser = do
    throw_if (is_empty section.ruleset_name) (no_ruleset section.id)
    use_ruleset rule_id section parser (lookup section.ruleset_name rulesets)

  -- `children`, if it is a sequence of some nodes.
  unfoldable pub child_nodes : Str → Option Node → Result (List Node)
  child_nodes id none = err (no_children id)
  child_nodes id (some children) =
      if yaml.is_sequence children && not (is_empty (yaml.items children))
      then ok (yaml.items children)
      else err (no_children id)

  -- The section of parser `mixed`, for a way to parse its children.
  unfoldable pub parse_mixed :
      (Node → Result SectionRule) → SectionSettings → Node → Result SectionRule
  unfolding child_nodes sections_of
  parse_mixed parse_child section node = do
    found ← yaml.child node (codes "sections")
    nodes ← child_nodes section.id found
    children ← collect parse_child nodes
    ok (section_rule (record section { kind = SectionKind.mixed }) (sections_of children))

  -- A call for each level of nested sections.
  unfoldable pub parse_section_node : ℕ → Map (ParserRuleSet Node) → Str → Node → Result SectionRule
  unfolding parse_settings parse_mixed parse_leaf
  parse_section_node zero rulesets rule_id node = err too_deep
  parse_section_node (suc fuel) rulesets rule_id node = do
    section ← parse_settings node
    parser ← text_at yaml node (codes "parser")
    if str_eq parser (codes "mixed")
        then parse_mixed (parse_section_node fuel rulesets rule_id) section node
        else parse_leaf rulesets rule_id section parser
