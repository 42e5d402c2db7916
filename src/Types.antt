-- ===== src/Types.antt =====
-- The data of include/parser_framework/ParserFramework.hpp and ParsingEngines.hpp.
use parser_framework.Base.{none, ℕ, Bool, false, Option, List, [], Str, Map}

pub data SectionKind : Type 0 where
  free_text kv json mixed : SectionKind

pub record Token : Type 0 where
  pub name : Str
  pub value : Str
  pub section : Str
  pub source_engine : Str
  pub path : Str
  pub start : ℕ
  pub end : ℕ

pub record ParseResult : Type 0 where
  pub matched : Bool
  pub message_rule_id : Str
  pub message_rule_name : Str
  pub event_name : Str
  pub event_pattern_id : Str
  pub properties : Map Str
  pub token_extraction : List Str
  pub tokens : List Token
  pub errors : List Str

abbrev pub empty_result : ParseResult
empty_result = record {
  matched = false;
  message_rule_id = [];
  message_rule_name = [];
  event_name = [];
  event_pattern_id = [];
  properties = [];
  token_extraction = [];
  tokens = [];
  errors = [];
}

pub record RegexTokenRule : Type 0 where
  pub name : Str
  pub pattern : Str
  pub group : ℕ

pub record DeclaredToken : Type 0 where
  pub name : Str
  pub type : Str

pub record NamedCapture : Type 0 where
  pub name : Str
  pub group : ℕ

pub record MessageFilterRule : Type 0 where
  pub pattern : Str
  pub captures : List NamedCapture

pub record JsonMatchRule : Type 0 where
  pub path : Str
  pub equals : Option Str

pub record JsonTokenRule : Type 0 where
  pub name : Str
  pub path : Str

-- The members of `SectionRule` but `children`.
pub record SectionSettings : Type 0 where
  pub id : Str
  pub kind : SectionKind
  pub extract_name : Str
  pub ruleset_id : Str
  pub ruleset_name : Str
  pub locator_pattern : Option Str
  pub locator_group : ℕ
  pub allow_multiple : Bool
  pub declared_tokens : List DeclaredToken
  pub dynamic_properties : List Str
  pub regex_tokens : List RegexTokenRule
  pub json_matches : List JsonMatchRule
  pub json_tokens : List JsonTokenRule

-- `SectionRule` with its `std::vector<SectionRule> children`.
mutual
  pub data SectionRule : Type 0 where
    section_rule : SectionSettings → Sections → SectionRule

  pub data Sections : Type 0 where
    nil : Sections
    cons : SectionRule → Sections → Sections

pub record MessageRule : Type 0 where
  pub id : Str
  pub name : Str
  pub filters : List MessageFilterRule
  pub sections : List SectionRule

pub record SectionSlice : Type 0 where
  pub text : Str
  pub start : ℕ
  pub end : ℕ

pub record FilterMatch : Type 0 where
  pub matched : Bool
  pub captures : Map Str

abbrev pub no_match : FilterMatch
no_match = record { matched = false; captures = [] }

-- `SectionRule section;`
abbrev pub empty_section : SectionSettings
empty_section = record {
  id = [];
  kind = SectionKind.free_text;
  extract_name = [];
  ruleset_id = [];
  ruleset_name = [];
  locator_pattern = none;
  locator_group = 1;
  allow_multiple = false;
  declared_tokens = [];
  dynamic_properties = [];
  regex_tokens = [];
  json_matches = [];
  json_tokens = [];
}
