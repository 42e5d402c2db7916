-- ===== src/Report/Loaded.antt =====
-- Which report rules `ReportRuleLoader::load_rules` of src/ReportAnalyzer.cpp returns.
use parser_framework.Base.{
  Bool, true, false, List, [], ◌∷◌, ◌++◌, append-nil, append_assoc, ◌≡◌, refl, sym, ◌∙◌, inl, inr,
  Str, codes, Result, ok, Result-cases, ◌>>=◌, collect,
}
use parser_framework.Messages.{Files, sort}
use parser_framework.Report.Loader.{
  parse_report_rule, load_report, load_report_file, parse_correlation_rule, load_correlation,
  load_correlation_file, load_report_rules_file, load_report_rules,
}
use parser_framework.Report.Types.{ReportRule, CorrelationRule, ReportRuleSet}
use parser_framework.Rules.Files.{for_each, for_each_rule_file, rule_files, file_nodes}
use parser_framework.Yaml.{Yaml}

abbrev pub fold_left : {S D : Type 0} → (S → D → S) → S → List D → S
fold_left add s [] = s
fold_left add s (d ∷ rest) = fold_left add (add s d) rest

-- A loop whose rounds only add what they read.
for_each-collect :
    {A S D : Type 0} (step : A → S → Result S) (read : A → Result D) (add : S → D → S)
    → ((x : A) (s : S) → step x s ≡ (read x >>= λ d. ok (add s d)))
    → (xs : List A) (s : S)
    → for_each step xs s ≡ (collect read xs >>= λ ds. ok (fold_left add s ds))
unfolding for_each collect
for_each-collect step read add h [] s = refl
for_each-collect step read add h (x ∷ xs) s = elim (Result-cases (read x)) [
  | inr (what, e) ↦ rw (h x s, e) refl
  | inl (d, e) ↦
      rw (h x s, e)
        (for_each-collect step read add h xs (add s d) ∙ elim (Result-cases (collect read xs)) [
          | inr (what, p) ↦ rw p refl
          | inl (ds, p) ↦ rw p refl
        ])
]

abbrev add_last : {A : Type 0} → List A → A → List A
add_last rules rule = rules ++ rule ∷ []

fold-add_last : {A : Type 0} (rules more : List A) → fold_left add_last rules more ≡ rules ++ more
fold-add_last rules [] = sym (append-nil rules)
fold-add_last rules (x ∷ more) =
    fold-add_last (rules ++ x ∷ []) more ∙ append_assoc rules (x ∷ []) more

module _ {Node : Type 0} (yaml : Yaml Node) where
  -- The rules of one file by itself.
  unfoldable pub reports_of : Str → Result (List ReportRule)
  reports_of file = do
    nodes ← file_nodes yaml file (codes "reports")
    collect (parse_report_rule yaml) nodes

  unfoldable pub correlations_of : Str → Result (List CorrelationRule)
  correlations_of file = do
    nodes ← file_nodes yaml file (codes "correlations")
    collect (parse_correlation_rule yaml) nodes

  unfoldable pub rules_of : Str → Result ReportRuleSet
  unfolding reports_of correlations_of
  rules_of file = do
    reports ← reports_of file
    correlations ← correlations_of file
    ok (record { reports = reports; correlations = correlations })

  abbrev pub add_rules : ReportRuleSet → ReportRuleSet → ReportRuleSet
  add_rules s d = record {
    reports = s.reports ++ d.reports;
    correlations = s.correlations ++ d.correlations;
  }

  load_report_file-eq :
      (file : Str) (rules : List ReportRule)
      → load_report_file yaml file rules ≡ (reports_of file >>= λ more. ok (rules ++ more))
  unfolding load_report_file reports_of load_report
  load_report_file-eq file rules = elim (Result-cases (file_nodes yaml file (codes "reports"))) [
    | inr (what, e) ↦ rw e refl
    | inl (nodes, e) ↦ rw e (
        for_each-collect _ (parse_report_rule yaml) add_last (λ x s. refl) nodes rules
        ∙ elim (Result-cases (collect (parse_report_rule yaml) nodes)) [
          | inr (what, p) ↦ rw p refl
          | inl (more, p) ↦ rw (p, fold-add_last rules more) refl
        ])
  ]

  load_correlation_file-eq :
      (file : Str) (rules : List CorrelationRule)
      → load_correlation_file yaml file rules
        ≡ (correlations_of file >>= λ more. ok (rules ++ more))
  unfolding load_correlation_file correlations_of load_correlation
  load_correlation_file-eq file rules =
      elim (Result-cases (file_nodes yaml file (codes "correlations"))) [
        | inr (what, e) ↦ rw e refl
        | inl (nodes, e) ↦ rw e (
            for_each-collect _ (parse_correlation_rule yaml) add_last (λ x s. refl) nodes rules
            ∙ elim (Result-cases (collect (parse_correlation_rule yaml) nodes)) [
              | inr (what, p) ↦ rw p refl
              | inl (more, p) ↦ rw (p, fold-add_last rules more) refl
            ])
      ]

  load_file-eq :
      (file : Str) (s : ReportRuleSet)
      → load_report_rules_file yaml file s ≡ (rules_of file >>= λ d. ok (add_rules s d))
  unfolding load_report_rules_file rules_of
  load_file-eq file s =
      rw (load_report_file-eq file s.reports, load_correlation_file-eq file s.correlations)
        (elim (Result-cases (reports_of file)) [
          | inr (what, e) ↦ rw e refl
          | inl (reports, e) ↦ rw e (elim (Result-cases (correlations_of file)) [
            | inr (what, p) ↦ rw p refl
            | inl (correlations, p) ↦ rw p refl
          ])
        ])

  -- The rules of a directory are those of its rule files, in the order of their paths: each file is read
  -- by itself, and its rules follow those of the files before it. The first file that cannot be read
  -- ends it.
  pub load_report_rules-directory :
      (files : Files) (path : Str) (entries : List (Str × Bool))
      → files.exists path ≡ true
      → files.is_regular_file path ≡ false
      → files.is_directory path ≡ true
      → files.walk path ≡ ok entries
      → load_report_rules yaml files path ≡ (
          collect rules_of (sort (rule_files entries)) >>= λ sets.
          ok (fold_left add_rules (record { reports = []; correlations = [] }) sets))
  unfolding load_report_rules for_each_rule_file
  load_report_rules-directory files path entries e r d w =
      rw (e, r, d, w)
        (for_each-collect _ rules_of add_rules load_file-eq (sort (rule_files entries)) _)
