-- ===== src/Report.antt =====
-- The report rules of src/ReportAnalyzer.cpp, applied to one parsed message and to many.
pub mod Correlation
pub mod Groups
pub mod Correlated
pub mod Complete
pub mod Types
pub mod Loader
pub mod Loaded
use parser_framework.Base.{
  Bool, true, false, not, ◌&&◌, ◌||◌, List, [], ◌∷◌, ◌++◌, Option, none, some, if◌then◌else◌,
  is_empty, drop, Str, codes, contains, starts_with, Map, assign,
}
use parser_framework.Libraries.{Libraries}
use parser_framework.Property
use parser_framework.Report.Correlation.{correlate_findings}
use parser_framework.Report.Types.{
  ReportSource, ReportRule, CorrelationRule, ReportRuleSet, ReportFinding,
}
use parser_framework.Types.{ParseResult}

-- `ReportAnalyzer`
pub record ReportAnalyzer : Type 0 where
  pub rules : List ReportRule
  pub correlation_rules : List CorrelationRule

abbrev pub analyzer_of : ReportRuleSet → ReportAnalyzer
analyzer_of rule_set = record {
  rules = rule_set.reports;
  correlation_rules = rule_set.correlations;
}

abbrev pub add_rule : ReportRule → ReportAnalyzer → ReportAnalyzer
add_rule rule analyzer = record analyzer { rules = analyzer.rules ++ rule ∷ [] }

abbrev pub add_correlation_rule : CorrelationRule → ReportAnalyzer → ReportAnalyzer
add_correlation_rule rule analyzer = record analyzer {
  correlation_rules = analyzer.correlation_rules ++ rule ∷ [];
}

unfoldable pub normalize_report_property_name : Str → Str
normalize_report_property_name name =
    if starts_with (codes "report.") name then drop 7 name else name

-- The loop over `evaluated`.
unfoldable pub normalize_properties : Map Str → Map Str → Map Str
unfolding normalize_report_property_name
normalize_properties [] properties = properties
normalize_properties ((name, value) ∷ rest) properties =
    normalize_properties rest (assign (normalize_report_property_name name) value properties)

-- `!rule.bindings.empty()` and the rule's id is not among them.
unfoldable pub is_unbound : List Str → Str → Bool
is_unbound bindings id = not (is_empty bindings) && not (contains bindings id)

abbrev pub finding_of : ReportRule → ParseResult → Map Str → ReportFinding
finding_of rule result properties = record {
  id = rule.id;
  name = rule.name;
  message_rule_id = result.message_rule_id;
  message_rule_name = result.message_rule_name;
  event_name = result.event_name;
  sources =
      record {
        message_rule_id = result.message_rule_id;
        message_rule_name = result.message_rule_name;
        event_name = result.event_name;
      }
      ∷ [];
  properties = properties;
}

module _ (lib : Libraries) where
  -- What one rule finds: nothing if it is not bound, if an expression fails, or without properties.
  unfoldable pub apply_rule : ReportRule → ParseResult → Option ReportFinding
  unfolding is_unbound normalize_properties
  apply_rule rule result =
      let (evaluated, errors) = Property.evaluate lib rule.dynamic_properties result [] in
      let properties = normalize_properties evaluated [] in
      if is_unbound rule.bindings result.message_rule_id
      then none
      else if not (is_empty errors)
      then none
      else if is_empty properties
      then none
      else some (finding_of rule result properties)

  -- The loop over `m_rules` of the first `analyze`.
  unfoldable pub analyze : List ReportRule → ParseResult → List ReportFinding
  unfolding apply_rule
  analyze [] result = []
  analyze (rule ∷ rest) result =
      let later = analyze rest result in
      elim (apply_rule rule result) [ none ↦ later | some finding ↦ finding ∷ later ]

  unfoldable pub analyze_each : List ReportRule → List ParseResult → List ReportFinding
  unfolding analyze
  analyze_each rules [] = []
  analyze_each rules (result ∷ rest) = analyze rules result ++ analyze_each rules rest

  -- The second `analyze`. `none` is a fault of the correlation.
  unfoldable pub analyze_all : ReportAnalyzer → List ParseResult → Option (List ReportFinding)
  unfolding analyze_each correlate_findings
  analyze_all analyzer results =
      let findings = analyze_each analyzer.rules results in
      elim (correlate_findings findings analyzer.correlation_rules) [
        | none ↦ none
        | some correlated ↦ some (findings ++ correlated)
      ]
