-- ===== src/Rules.antt =====
-- src/RuleLoader.cpp: the loader of parser rulesets and identification rules.
pub mod Fields
pub mod Paths
pub mod Rulesets
pub mod Expected
pub mod Examples
pub mod Sections
pub mod Identification
pub mod Files
pub mod Sound
pub mod Loaded
pub mod Resolved
pub mod Accepted
pub mod Passed
pub mod Trusted
pub mod Depth
pub mod Distinct
use parser_framework.Base.{Option, List, Str, Map}
use parser_framework.Types.{DeclaredToken, RegexTokenRule, JsonMatchRule, JsonTokenRule}

pub data RulesetParserKind : Type 0 where
  kv json regex : RulesetParserKind

-- A set of bindings serves membership and emptiness, and is the list of them.
pub record ParserRuleSet (Node : Type 0) : Type 0 where
  pub id : Str
  pub name : Str
  pub kind : RulesetParserKind
  pub definition_dir : Str
  pub bindings : List Str
  pub tokens : List DeclaredToken
  pub dynamic_properties : List Str
  pub regex_tokens : List RegexTokenRule
  pub json_matches : List JsonMatchRule
  pub json_tokens : List JsonTokenRule
  pub examples : Option Node

pub record IdentificationExample : Type 0 where
  pub message : Str
  pub captures : Map Str
