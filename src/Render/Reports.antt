-- ===== src/Render/Reports.antt =====
-- `render_reports_as_json` of src/ReportAnalyzer.cpp.
use parser_framework.Base.{
  ℕ, suc, List, [], ◌∷◌, ◌++◌, map, if◌then◌else◌, ltb, length, Str, codes, Map,
}
use parser_framework.Json.{append_indent}
use parser_framework.Render.{RenderNode, empty_node, entry_lines, render_object_children}
use parser_framework.Render.Results.{insert_values, object_entry, string_line}
use parser_framework.Report.Types.{ReportSource, ReportFinding}

unfoldable pub build_tree : Map Str → RenderNode
unfolding insert_values
build_tree values = insert_values values empty_node

-- The members of a source.
unfoldable pub source_lines : ReportSource → ℕ → List Str
unfolding string_line
source_lines source depth =
    string_line depth (codes "message_rule_id") source.message_rule_id
    ∷ string_line depth (codes "message_rule_name") source.message_rule_name
    ∷ string_line depth (codes "event_name") source.event_name
    ∷ []

unfoldable pub render_source : ReportSource → ℕ → Str
unfolding append_indent entry_lines source_lines
render_source source depth =
    append_indent depth
    ++ (codes "{\n"
        ++ (entry_lines (source_lines source (suc depth)) ++ (append_indent depth ++ codes "}")))

abbrev pub primary_source : ReportFinding → ReportSource
primary_source report = record {
  message_rule_id = report.message_rule_id;
  message_rule_name = report.message_rule_name;
  event_name = report.event_name;
}

-- All sources, if there is more than one.
unfoldable pub sources_entry : List ReportSource → List Str
unfolding append_indent entry_lines render_source
sources_entry sources =
    if ltb 1 (length sources)
    then (append_indent 3
        ++ (codes "\"sources\": [\n"
            ++ (entry_lines (map (λ source. render_source source 4) sources)
                ++ (append_indent 3 ++ codes "]"))))
      ∷ []
    else []

unfoldable pub report_entries : ReportFinding → List Str
unfolding object_entry entry_lines string_line source_lines sources_entry build_tree
    render_object_children
report_entries report =
    object_entry 3 (codes "rule") (
      entry_lines
        (string_line 4 (codes "id") report.id ∷ string_line 4 (codes "name") report.name ∷ []))
    ∷ object_entry 3 (codes "source") (entry_lines (source_lines (primary_source report) 4))
    ∷ (sources_entry report.sources
        ++ object_entry 3 (codes "report") (render_object_children (build_tree report.properties) 4)
          ∷ [])

-- One round of the loop over the reports, without the comma.
unfoldable pub render_report : ReportFinding → Str
unfolding append_indent entry_lines report_entries
render_report report =
    append_indent 2
    ++ (codes "{\n" ++ (entry_lines (report_entries report) ++ (append_indent 2 ++ codes "}")))

unfoldable pub render_reports_as_json : List ReportFinding → Str
unfolding append_indent entry_lines render_report
render_reports_as_json reports =
    codes "{\n"
    ++ (append_indent 1
        ++ (codes "\"reports\": [\n"
            ++ (entry_lines (map render_report reports) ++ (append_indent 1 ++ codes "]\n}"))))
