-- ===== src/Report/Types.antt =====
-- The data of include/parser_framework/ReportAnalyzer.hpp.
use parser_framework.Base.{ℕ, List, Str, Map}

pub record ReportSource : Type 0 where
  pub message_rule_id : Str
  pub message_rule_name : Str
  pub event_name : Str

pub record ReportRule : Type 0 where
  pub id : Str
  pub name : Str
  pub bindings : List Str
  pub dynamic_properties : List Str

pub record CorrelationRule : Type 0 where
  pub id : Str
  pub name : Str
  pub family : Str
  pub min_distinct_systems : ℕ
  pub systems : List Str

pub record ReportRuleSet : Type 0 where
  pub reports : List ReportRule
  pub correlations : List CorrelationRule

pub record ReportFinding : Type 0 where
  pub id : Str
  pub name : Str
  pub message_rule_id : Str
  pub message_rule_name : Str
  pub event_name : Str
  pub sources : List ReportSource
  pub properties : Map Str
