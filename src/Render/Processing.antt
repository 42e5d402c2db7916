-- ===== src/Render/Processing.antt =====
-- `render_bundle_processing_result_as_json` of src/IngestionPipeline.cpp. Its copies of `append_indent`,
-- `render_string_array` and `render_attribution` write what those of src/IngestionBundle.cpp write.
use parser_framework.Base.{
  ℕ, suc, List, [], ◌∷◌, ◌++◌, map, Option, none, some, length, Str, codes, to_string,
}
use parser_framework.Ingestion.{
  Attribution, SiteMetadata, NetworkMetadata, SystemMetadata, LogCollection,
}
use parser_framework.Json.Embedded.{indent_embedded_json}
use parser_framework.Pipeline.{CollectionProcessingResult, BundleProcessingResult}
use parser_framework.Render.Bundles.{
  string_lines, named_line, object_lines, attribution_line, array_line, list_line, site_strings,
  network_strings, system_strings, collection_strings, render_bundle_as_json,
}
use parser_framework.Render.Reports.{render_reports_as_json}
use parser_framework.Render.Results.{object_entry, render_results_as_json}
use parser_framework.Render.{entry_lines}

-- `"record_count": "n"`
abbrev pub count_line : ℕ → ℕ → Str
count_line depth count =
    named_line depth (codes "record_count") (b'"' ∷ (to_string count ++ b'"' ∷ []))

-- The members that a system and a network end with.
unfoldable pub owner_lines : ℕ → Attribution → List Str → List Str
unfolding array_line
owner_lines depth attribution tags =
    attribution_line depth attribution ∷ array_line depth (codes "tags") tags ∷ []

unfoldable pub render_collection_context : LogCollection → ℕ → Str
unfolding object_entry entry_lines string_lines owner_lines
render_collection_context c depth = object_entry depth (codes "collection") (
    entry_lines (
      string_lines (suc depth) (collection_strings c)
      ++ count_line (suc depth) (length c.records) ∷ owner_lines (suc depth) c.attribution c.tags))

unfoldable pub render_system : SystemMetadata → ℕ → Str
unfolding object_entry entry_lines string_lines owner_lines
render_system s depth = object_entry depth (codes "system") (
    entry_lines
      (string_lines (suc depth) (system_strings s) ++ owner_lines (suc depth) s.attribution s.tags))

unfoldable pub render_network : NetworkMetadata → ℕ → Str
unfolding object_entry entry_lines string_lines owner_lines
render_network n depth = object_entry depth (codes "network") (
    entry_lines (
      string_lines (suc depth) (network_strings n) ++ owner_lines (suc depth) n.attribution n.tags))

unfoldable pub render_site : SiteMetadata → ℕ → Str
unfolding object_entry entry_lines string_lines
render_site s depth =
    object_entry depth (codes "site") (entry_lines (string_lines (suc depth) (site_strings s)))

-- What is rendered of a part that may be missing.
abbrev pub if_there : {A : Type 0} → (A → Str) → Option A → List Str
if_there render none = []
if_there render (some x) = render x ∷ []

-- One round of the loop over the collections, without the comma.
unfoldable pub render_collection_result : CollectionProcessingResult → Str
unfolding object_lines render_collection_context render_system render_network render_site
    indent_embedded_json render_results_as_json
render_collection_result r = object_lines 2 (
    render_collection_context r.collection 3
    ∷ (if_there (λ s. render_system s 3) r.system
        ++ (if_there (λ n. render_network n 3) r.network
            ++ (if_there (λ s. render_site s 3) r.site
                ++ named_line 3 (codes "parser_output")
                    (indent_embedded_json (render_results_as_json r.parsed) 3)
                  ∷ []))))

unfoldable pub render_bundle_processing_result_as_json : BundleProcessingResult → Str
unfolding entry_lines named_line list_line indent_embedded_json render_bundle_as_json
    render_reports_as_json render_collection_result
render_bundle_processing_result_as_json r =
    codes "{\n"
    ++ (entry_lines (
          named_line 1 (codes "bundle") (indent_embedded_json (render_bundle_as_json r.bundle) 1)
          ∷ list_line (codes "collections") (map render_collection_result r.collections)
          ∷ named_line 1 (codes "report_output")
              (indent_embedded_json (render_reports_as_json r.reports) 1)
          ∷ [])
        ++ codes "}")
