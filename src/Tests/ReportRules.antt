-- ===== src/Tests/ReportRules.antt =====
-- A directory of report rules through src/ReportAnalyzer.cpp.
use parser_framework.Base.{
  ◌≡◌, refl, true, false, [], ◌∷◌, none, Str, codes, str_eq, compare_str, ok, ◌>>=◌, collect,
}
use parser_framework.Messages.{Files, sort}
use parser_framework.Report.Loaded.{fold_left, rules_of, add_rules, load_report_rules-directory}
use parser_framework.Report.Loader.{load_report_rules}
use parser_framework.Report.Types.{ReportRuleSet}
use parser_framework.Rules.Fields.{text_at, sequence_of, update_from}
use parser_framework.Rules.Files.{rule_files}
use parser_framework.Tests.Documents.{Doc, text, sequence, table, end, item, field_texts, yaml_of}
use parser_framework.Yaml.{Yaml}

abbrev report_doc : Str → Doc
report_doc id = table (
    item (codes "reports")
      (sequence
        (item [] (table (item (codes "id") (text id) (field_texts (codes "name" ∷ []) end))) end))
      (item (codes "correlations")
        (sequence
          (item [] (table (field_texts (codes "id" ∷ codes "name" ∷ codes "family" ∷ []) end)) end))
        end))

-- Each file has a report whose id is its path.
abbrev report_yaml : Yaml Doc
report_yaml = yaml_of report_doc

abbrev directory : Files
directory = record {
  exists = λ path. true;
  is_regular_file = λ path. false;
  is_directory = λ path. true;
  read = λ path. none;
  walk =
      λ path. ok ((codes "d/b.yaml", true) ∷ (codes "d/c.md", true) ∷ (codes "d/a.yml", true) ∷ []);
}

abbrev expected : ReportRuleSet
expected = record {
  reports =
      record { id = codes "d/a.yml"; name = codes "name"; bindings = []; dynamic_properties = [] }
      ∷ record {
        id = codes "d/b.yaml";
        name = codes "name";
        bindings = [];
        dynamic_properties = [];
      }
      ∷ [];
  correlations =
      record {
        id = codes "id";
        name = codes "name";
        family = codes "family";
        min_distinct_systems = 2;
        systems = [];
      }
      ∷ record {
        id = codes "id";
        name = codes "name";
        family = codes "family";
        min_distinct_systems = 2;
        systems = [];
      }
      ∷ [];
}

loaded-rules : load_report_rules report_yaml directory (codes "d") ≡ ok expected
unfolding load_report_rules str_eq compare_str text_at sequence_of update_from
loaded-rules = refl

load_report_rules-directory_example : load_report_rules report_yaml directory (codes "d") ≡ (
    collect (rules_of report_yaml) (
      sort (
        rule_files
          ((codes "d/b.yaml", true) ∷ (codes "d/c.md", true) ∷ (codes "d/a.yml", true) ∷ [])))
    >>= λ sets.
        ok (fold_left (add_rules report_yaml) (record { reports = []; correlations = [] }) sets))
load_report_rules-directory_example =
    load_report_rules-directory report_yaml directory (codes "d")
      ((codes "d/b.yaml", true) ∷ (codes "d/c.md", true) ∷ (codes "d/a.yml", true) ∷ []) refl refl
      refl refl
