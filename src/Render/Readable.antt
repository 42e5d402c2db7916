-- ===== src/Render/Readable.antt =====
-- What `render_results_as_json` of src/ParserFramework.cpp writes is JSON.
use parser_framework.Base.{
  List, [], ◌∷◌, map, refl, append_assoc, is_empty, inl, inr, Bool-cases, Str, codes, All,
}
use parser_framework.Json.Grammar.{null, object, Fields, no_field, field, stay, Reads, reads_null}
use parser_framework.Json.{append_indent, escape_json_string}
use parser_framework.Render.Arrays.{
  Elements, no_element, next, element, array-IsText, row-IsText, strings-Elements, IsElement,
  document-Reads,
}
use parser_framework.Render.Blocks.{
  Entries, no_entry, entry, Entries-append, indent-White, IsField-Plain, string_line-IsField,
  entry_lines-IsBlock, object-IsText, object_entry-IsField,
}
use parser_framework.Render.Documents.{
  ResultRenderable, rule_fields, event_fields, property_fields, matched_fields, errors_fields,
  result_doc, docs_of, results_doc, insert_values-Ordered, build_render_tree-Ordered,
}
use parser_framework.Render.Ordered.{empty-Ordered}
use parser_framework.Render.Results.{
  build_render_tree, rule_entry, event_entry, tokens_entry, property_entry, matched_entries,
  error_lines, errors_entry, render_result, render_results_as_json,
}
use parser_framework.Render.Trees.{node_fields, render_object_children-IsBlock}
use parser_framework.Render.{empty_node}
use parser_framework.Types.{ParseResult}

module _ (r : ParseResult) (h : ResultRenderable r) where
  rule-Entries :
      (more : Fields) (texts : List Str)
      → Entries more texts
      → Entries (field (codes "rule") (object (rule_fields r)) more) (rule_entry r ∷ texts)
  unfolding rule_entry escape_json_string
  rule-Entries more texts k =
      entry _ _ _ more texts
        (object_entry-IsField 3 (codes "rule") (rule_fields r) _ (refl, refl)
          (entry_lines-IsBlock _ _ (
            entry _ _ _ _ _ (string_line-IsField 4 (codes "id") _ (refl, refl) h.message_rule_id) (
              entry _ _ _ _ _
                (string_line-IsField 4 (codes "name") _ (refl, refl) h.message_rule_name)
                (entry _ _ _ _ _
                  (IsField-Plain 4 (codes "token_extraction") _ _ (refl, refl)
                    (row-IsText r.token_extraction h.token_extraction))
                  no_entry)))))
        k

  event-Entries :
      (more : Fields) (texts : List Str)
      → Entries more texts
      → Entries (field (codes "event") (object (event_fields r)) more) (event_entry r ∷ texts)
  unfolding event_entry escape_json_string
  event-Entries more texts k =
      entry _ _ _ more texts
        (object_entry-IsField 3 (codes "event") (event_fields r) _ (refl, refl)
          (entry_lines-IsBlock _ _ (
            entry _ _ _ _ _ (string_line-IsField 4 (codes "name") _ (refl, refl) h.event_name) (
              entry _ _ _ _ _
                (string_line-IsField 4 (codes "pattern_id") _ (refl, refl) h.event_pattern_id)
                no_entry))))
        k

  tokens-Entries :
      (more : Fields) (texts : List Str)
      → Entries more texts
      → Entries
          (field (codes "tokens") (object (node_fields (build_render_tree r))) more)
          (tokens_entry r ∷ texts)
  unfolding tokens_entry escape_json_string
  tokens-Entries more texts k =
      entry _ _ _ more texts
        (object_entry-IsField 3 (codes "tokens") _ _ (refl, refl)
          (render_object_children-IsBlock _ (build_render_tree-Ordered r h.tokens) 4))
        k

  property-Entries : Entries (property_fields r.properties) (property_entry r)
  unfolding property_entry property_fields escape_json_string
  property-Entries = elim (Bool-cases (is_empty r.properties)) [
    | inl e ↦ rw e no_entry
    | inr e ↦ rw e (
        entry _ _ _ no_field []
          (object_entry-IsField 3 (codes "property") _ _ (refl, refl)
            (render_object_children-IsBlock _
              (insert_values-Ordered r.properties empty_node h.properties empty-Ordered) 4))
          no_entry)
  ]

  matched-Entries : Entries (matched_fields r) (matched_entries r)
  unfolding matched_entries matched_fields escape_json_string
  matched-Entries = elim (Bool-cases r.matched) [
    | inl e ↦ rw e (rule-Entries _ _ (event-Entries _ _ (tokens-Entries _ _ property-Entries)))
    | inr e ↦ rw e (
        entry _ _ _ no_field []
          (IsField-Plain 3 (codes "rule") null (codes "null") (refl, refl)
            (record { at = λ rest. reads_null rest }))
          no_entry)
  ]

  errors-Entries : Entries (errors_fields r.errors) (errors_entry r.errors)
  unfolding errors_entry errors_fields error_lines escape_json_string
  errors-Entries = elim (Bool-cases (is_empty r.errors)) [
    | inl e ↦ rw e no_entry
    | inr e ↦ rw e (
        entry _ _ _ no_field []
          (IsField-Plain 3 (codes "errors") _ _ (refl, refl)
            (array-IsText 3 _ _ (strings-Elements 4 r.errors h.errors)))
          no_entry)
  ]

  result-IsElement : IsElement (result_doc r) (render_result r)
  unfolding render_result result_doc
  result-IsElement = record {
    at = λ rest. rw (append_assoc (append_indent 2)) (
        element _ _ _ rest (indent-White 2 _ _ (stay _)) (
          (object-IsText 2 _ _
              (entry_lines-IsBlock _ _ (Entries-append _ _ _ _ matched-Entries errors-Entries))).at
            rest));
  }

results-Elements :
    (results : List ParseResult)
    → All ResultRenderable results
    → Elements (docs_of result_doc results) (map render_result results)
results-Elements [] h = no_element
results-Elements (r ∷ rest) h = next _ _ _ _ (result-IsElement r h.0) (results-Elements rest h.1)

-- What is rendered for results is a JSON text, up to its end, of an object with the document of each
-- result in order: of its rule, its event, and the trees of its tokens and properties, if it matched,
-- and of its errors, if there are any. No string of a result may have a control byte without a short
-- escape.
pub render_results_as_json-Reads :
    (results : List ParseResult)
    → All ResultRenderable results
    → Reads (results_doc results) (render_results_as_json results) []
unfolding render_results_as_json results_doc escape_json_string
render_results_as_json-Reads results h =
    document-Reads (codes "parsed") _ _ (refl, refl) (results-Elements results h)
