-- ===== src/Report/Loader.antt =====
-- The loader of report rules, `ReportRuleLoader::load_rules` of src/ReportAnalyzer.cpp.
use parser_framework.Base.{not, List, [], ◌∷◌, ◌++◌, Str, codes, Result, ok, ◌>>=◌, ◌>>◌, throw_if}
use parser_framework.Messages.{Files}
use parser_framework.Report.Types.{ReportRule, CorrelationRule, ReportRuleSet}
use parser_framework.Rules.Fields.{text_at, update_from, sequence_of}
use parser_framework.Rules.Files.{for_each, for_each_rule_file, file_nodes}
use parser_framework.Yaml.{Yaml}

abbrev pub reports_path : Str → Str
reports_path path = codes "Report rules path is not a file or directory [" ++ (path ++ codes "]")

abbrev pub no_reports_path : Str → Str
no_reports_path path = codes "Report rules path does not exist [" ++ (path ++ codes "]")

module _ {Node : Type 0} (yaml : Yaml Node) where
  unfoldable pub parse_report_rule : Node → Result ReportRule
  parse_report_rule report_node = do
    id ← text_at yaml report_node (codes "id")
    name ← text_at yaml report_node (codes "name")
    bindings_node ← yaml.child report_node (codes "bindings")
    bindings ← sequence_of yaml yaml.as_string bindings_node
    properties_node ← yaml.child report_node (codes "dynamic_properties")
    dynamic_properties ← sequence_of yaml yaml.as_string properties_node
    ok (record {
      id = id;
      name = name;
      bindings = bindings;
      dynamic_properties = dynamic_properties;
    })

  unfoldable pub load_report : Node → List ReportRule → Result (List ReportRule)
  unfolding parse_report_rule
  load_report node rules = do rule ← parse_report_rule node; ok (rules ++ rule ∷ [])

  unfoldable pub load_report_file : Str → List ReportRule → Result (List ReportRule)
  unfolding file_nodes for_each load_report
  load_report_file file rules = do
    reports ← file_nodes yaml file (codes "reports")
    for_each load_report reports rules

  unfoldable pub parse_correlation_rule : Node → Result CorrelationRule
  parse_correlation_rule correlation_node = do
    id ← text_at yaml correlation_node (codes "id")
    name ← text_at yaml correlation_node (codes "name")
    family ← text_at yaml correlation_node (codes "family")
    min_distinct_systems ←
        update_from yaml yaml.as_size correlation_node (codes "min_distinct_systems") 2
    systems_node ← yaml.child correlation_node (codes "systems")
    systems ← sequence_of yaml yaml.as_string systems_node
    ok (record {
      id = id;
      name = name;
      family = family;
      min_distinct_systems = min_distinct_systems;
      systems = systems;
    })

  unfoldable pub load_correlation : Node → List CorrelationRule → Result (List CorrelationRule)
  unfolding parse_correlation_rule
  load_correlation node rules = do rule ← parse_correlation_rule node; ok (rules ++ rule ∷ [])

  unfoldable pub load_correlation_file : Str → List CorrelationRule → Result (List CorrelationRule)
  unfolding file_nodes for_each load_correlation
  load_correlation_file file rules = do
    correlations ← file_nodes yaml file (codes "correlations")
    for_each load_correlation correlations rules

  -- The handler of `load_rules`: both lists from one file.
  unfoldable pub load_report_rules_file : Str → ReportRuleSet → Result ReportRuleSet
  unfolding load_report_file load_correlation_file
  load_report_rules_file file rule_set = do
    reports ← load_report_file file rule_set.reports
    correlations ← load_correlation_file file rule_set.correlations
    ok (record { reports = reports; correlations = correlations })

  unfoldable pub load_report_rules : Files → Str → Result ReportRuleSet
  unfolding for_each_rule_file load_report_rules_file
  load_report_rules files path = do
    throw_if (not (files.exists path)) (no_reports_path path)
    for_each_rule_file files reports_path load_report_rules_file path
        (record { reports = []; correlations = [] })
