-- ===== src/Tests/Report.antt =====
-- Two findings from two systems, correlated as src/ReportAnalyzer.cpp does.
use parser_framework.Base.{
  ◌≡◌, refl, List, [], ◌∷◌, some, true, codes, All, In, here, lookup, str_eq, contains, compare_str,
}
use parser_framework.Report.Complete.{correlate_complete}
use parser_framework.Report.Correlated.{Correlates, correlate-Correlates}
use parser_framework.Report.Correlation.{
  Group, correlate_findings, find_group, group_findings, fires, front, correlated_finding,
}
use parser_framework.Report.Groups.{Describes, members, group-Describes}
use parser_framework.Report.Types.{ReportFinding}
use parser_framework.Tests.Data.{finding_one, finding_two, two_systems}

correlate-Correlates_example :
    (xs : List ReportFinding) × (correlate_findings
        (finding_one ∷ finding_two ∷ finding_one ∷ [])
        (two_systems ∷ [])
      ≡ some xs)
    × All (Correlates (two_systems ∷ [])) xs
correlate-Correlates_example =
    correlate-Correlates (finding_one ∷ finding_two ∷ finding_one ∷ []) (two_systems ∷ [])

group-Describes_example :
    Describes
      (codes "10.0.0.1", codes "ssh")
      (members (codes "10.0.0.1", codes "ssh") (finding_one ∷ finding_two ∷ finding_one ∷ []))
      (find_group
        (codes "10.0.0.1", codes "ssh")
        (group_findings (finding_one ∷ finding_two ∷ finding_one ∷ []) []))
group-Describes_example =
    group-Describes (codes "10.0.0.1", codes "ssh") (finding_one ∷ finding_two ∷ finding_one ∷ [])

abbrev group : Group
group = record {
  source_ip = codes "10.0.0.1";
  family = codes "ssh";
  findings = finding_one ∷ finding_two ∷ finding_one ∷ [];
  systems_in_order = codes "web" ∷ codes "db" ∷ [];
  systems = codes "web" ∷ codes "db" ∷ [];
}

find-group :
    find_group
      (codes "10.0.0.1", codes "ssh")
      (group_findings (finding_one ∷ finding_two ∷ finding_one ∷ []) [])
    ≡ some group
unfolding find_group group_findings lookup str_eq contains compare_str
find-group = refl

fires-group : fires two_systems group ≡ true
unfolding fires str_eq contains
fires-group = refl

correlate_complete_example :
    (xs : List ReportFinding) × (first : ReportFinding) × (correlate_findings
        (finding_one ∷ finding_two ∷ finding_one ∷ [])
        (two_systems ∷ [])
      ≡ some xs)
    × (front group.findings ≡ some first)
    × In (correlated_finding two_systems first group) xs
correlate_complete_example =
    correlate_complete (finding_one ∷ finding_two ∷ finding_one ∷ []) (two_systems ∷ []) two_systems
      (codes "10.0.0.1", codes "ssh") group here find-group fires-group
