-- ===== src/Render/ReportDocuments.antt =====
-- What `render_reports_as_json` of src/ReportAnalyzer.cpp writes is JSON.
use parser_framework.Base.{
  ℕ, suc, List, [], ◌∷◌, map, refl, append_assoc, if◌then◌else◌, ltb, length, inl, inr, Bool-cases,
  codes, All,
}
use parser_framework.Json.Grammar.{
  Json, string, array, object, Fields, no_field, field, stay, Reads,
}
use parser_framework.Json.{append_indent, escape_json_string}
use parser_framework.Render.Arrays.{
  Elements, no_element, next, element, array-IsText, IsElement, document-Reads,
}
use parser_framework.Render.Blocks.{
  Renderable, Entries, no_entry, entry, append_fields, Entries-append, indent-White, IsField-Plain,
  string_line-IsField, entry_lines-IsBlock, object-IsText, object_entry-IsField,
}
use parser_framework.Render.Documents.{PairRenderable, docs_of, insert_values-Ordered}
use parser_framework.Render.Ordered.{empty-Ordered}
use parser_framework.Render.Reports.{
  build_tree, source_lines, render_source, primary_source, sources_entry, report_entries,
  render_report, render_reports_as_json,
}
use parser_framework.Render.Trees.{node_fields, render_object_children-IsBlock}
use parser_framework.Report.Types.{ReportSource, ReportFinding}

pub record SourceRenderable (s : ReportSource) : Type 0 where
  pub message_rule_id : Renderable s.message_rule_id
  pub message_rule_name : Renderable s.message_rule_name
  pub event_name : Renderable s.event_name

-- No string of the finding has a control byte without a short escape.
pub record FindingRenderable (f : ReportFinding) : Type 0 where
  pub id : Renderable f.id
  pub name : Renderable f.name
  pub source : SourceRenderable (primary_source f)
  pub sources : All SourceRenderable f.sources
  pub properties : All PairRenderable f.properties

-- What the text of a finding is to denote.
abbrev pub source_fields : ReportSource → Fields
source_fields s = field (codes "message_rule_id") (string s.message_rule_id) (
    field (codes "message_rule_name") (string s.message_rule_name)
      (field (codes "event_name") (string s.event_name) no_field))

abbrev pub source_doc : ReportSource → Json
source_doc s = object (source_fields s)

unfoldable pub sources_fields : List ReportSource → Fields
sources_fields sources =
    if ltb 1 (length sources)
    then field (codes "sources") (array (docs_of source_doc sources)) no_field
    else no_field

unfoldable pub finding_doc : ReportFinding → Json
unfolding sources_fields
finding_doc f = object (
    field (codes "rule")
      (object (field (codes "id") (string f.id) (field (codes "name") (string f.name) no_field)))
      (field (codes "source") (source_doc (primary_source f)) (
        append_fields (sources_fields f.sources)
          (field (codes "report") (object (node_fields (build_tree f.properties))) no_field))))

unfoldable pub reports_doc : List ReportFinding → Json
unfolding finding_doc
reports_doc reports =
    object (field (codes "reports") (array (docs_of finding_doc reports)) no_field)

source-Entries :
    (s : ReportSource) (depth : ℕ)
    → SourceRenderable s
    → Entries (source_fields s) (source_lines s depth)
unfolding source_lines escape_json_string
source-Entries s depth h =
    entry _ _ _ _ _
      (string_line-IsField depth (codes "message_rule_id") _ (refl, refl) h.message_rule_id)
      (entry _ _ _ _ _
        (string_line-IsField depth (codes "message_rule_name") _ (refl, refl) h.message_rule_name)
        (entry _ _ _ _ _
          (string_line-IsField depth (codes "event_name") _ (refl, refl) h.event_name) no_entry))

source-IsElement :
    (s : ReportSource) (depth : ℕ)
    → SourceRenderable s
    → IsElement (source_doc s) (render_source s depth)
unfolding render_source
source-IsElement s depth h = record {
  at = λ rest. rw (append_assoc (append_indent depth)) (
      element _ _ _ rest (indent-White depth _ _ (stay _)) (
        (object-IsText depth _ _ (entry_lines-IsBlock _ _ (source-Entries s (suc depth) h))).at
          rest));
}

sources-Elements :
    (sources : List ReportSource)
    → All SourceRenderable sources
    → Elements (docs_of source_doc sources) (map (λ source. render_source source 4) sources)
sources-Elements [] h = no_element
sources-Elements (s ∷ rest) h = next _ _ _ _ (source-IsElement s 4 h.0) (sources-Elements rest h.1)

sources-Entries :
    (sources : List ReportSource)
    → All SourceRenderable sources
    → Entries (sources_fields sources) (sources_entry sources)
unfolding sources_fields sources_entry escape_json_string
sources-Entries sources h = elim (Bool-cases (ltb 1 (length sources))) [
  | inl e ↦ rw e (
      entry _ _ _ no_field []
        (IsField-Plain 3 (codes "sources") _ _ (refl, refl)
          (array-IsText 3 _ _ (sources-Elements sources h)))
        no_entry)
  | inr e ↦ rw e no_entry
]

finding-IsElement :
    (f : ReportFinding) → FindingRenderable f → IsElement (finding_doc f) (render_report f)
unfolding render_report finding_doc report_entries build_tree escape_json_string
finding-IsElement f h = record {
  at = λ rest. rw (append_assoc (append_indent 2)) (
      element _ _ _ rest (indent-White 2 _ _ (stay _)) (
        (object-IsText 2 _ _ (
            entry_lines-IsBlock _ _ (
              entry _ _ _ _ _
                (object_entry-IsField 3 (codes "rule") _ _ (refl, refl)
                  (entry_lines-IsBlock _ _ (
                    entry _ _ _ _ _ (string_line-IsField 4 (codes "id") _ (refl, refl) h.id) (
                      entry _ _ _ _ _ (string_line-IsField 4 (codes "name") _ (refl, refl) h.name)
                        no_entry))))
                (entry _ _ _ _ _
                  (object_entry-IsField 3 (codes "source") _ _ (refl, refl)
                    (entry_lines-IsBlock _ _ (source-Entries (primary_source f) 4 h.source)))
                  (Entries-append _ _ _ _ (sources-Entries f.sources h.sources) (
                    entry _ _ _ no_field []
                      (object_entry-IsField 3 (codes "report") _ _ (refl, refl)
                        (render_object_children-IsBlock _
                          (insert_values-Ordered f.properties _ h.properties empty-Ordered) 4))
                      no_entry)))))).at
          rest));
}

findings-Elements :
    (reports : List ReportFinding)
    → All FindingRenderable reports
    → Elements (docs_of finding_doc reports) (map render_report reports)
findings-Elements [] h = no_element
findings-Elements (f ∷ rest) h = next _ _ _ _ (finding-IsElement f h.0) (findings-Elements rest h.1)

-- What is rendered for findings is a JSON text, up to its end, of an object with the document of each
-- finding in order: its rule, its first source, all its sources if there are several, and the tree of
-- its properties. No string of a finding may have a control byte without a short escape.
pub render_reports_as_json-Reads :
    (reports : List ReportFinding)
    → All FindingRenderable reports
    → Reads (reports_doc reports) (render_reports_as_json reports) []
unfolding render_reports_as_json reports_doc escape_json_string
render_reports_as_json-Reads reports h =
    document-Reads (codes "reports") _ _ (refl, refl) (findings-Elements reports h)
