-- ===== src/Render/ProcessingReads.antt =====
-- What `render_bundle_processing_result_as_json` of src/IngestionPipeline.cpp writes is JSON.
use parser_framework.Base.{
  ℕ, suc, true, ◌&&◌, List, [], ◌∷◌, append-nil, append_assoc, Option, none, some, length, ◌≡◌,
  refl, arith, ltb, and-eq-true, str_eq, Str, codes, to_string, are_digits, to_string-are_digits,
  All,
}
use parser_framework.Ingestion.{
  Attribution, SiteMetadata, NetworkMetadata, SystemMetadata, LogCollection,
}
use parser_framework.Json.Embedded.{indent_embedded_json, indent_embedded_json-Reads}
use parser_framework.Json.Grammar.{
  Json, string, array, object, Fields, no_field, field, Reads, reads_string,
}
use parser_framework.Json.{append_indent, escape_json_string, escape_byte}
use parser_framework.Pipeline.{CollectionProcessingResult, BundleProcessingResult}
use parser_framework.Render.Arrays.{IsElement}
use parser_framework.Render.Blocks.{
  Renderable, Plain, read-Plain, IsField, Entries, no_entry, entry, append_fields, Entries-append,
  IsField-Plain, entry_lines-IsBlock, object-IsText, object_entry-IsField,
}
use parser_framework.Render.BundleDocuments.{
  string_fields, string_lines-Entries, array_line-IsField, object_lines-IsElement,
  AttributionRenderable, attribution-IsField, attribution_field, tags_field,
}
use parser_framework.Render.BundleReads.{
  SiteRenderable, NetworkRenderable, SystemRenderable, CollectionRenderable, BundleRenderable,
  site_doc, network_doc, system_doc, bundle_doc, map-Elements, list_line-IsField,
  render_bundle_as_json-Reads,
}
use parser_framework.Render.Bundles.{
  named_line, site_strings, network_strings, system_strings, collection_strings,
}
use parser_framework.Render.Documents.{ResultRenderable, results_doc, docs_of}
use parser_framework.Render.Processing.{
  count_line, owner_lines, render_collection_context, render_system, render_network, render_site,
  if_there, render_collection_result, render_bundle_processing_result_as_json,
}
use parser_framework.Render.Readable.{render_results_as_json-Reads}
use parser_framework.Render.ReportDocuments.{
  FindingRenderable, reports_doc, render_reports_as_json-Reads,
}

escape-digit : (c : ℕ) → (ltb 47 c && ltb c 58) ≡ true → escape_byte c ≡ c ∷ []
unfolding escape_byte
escape-digit c h = ground (arith, h)

digits-Plain : (s : Str) → are_digits s ≡ true → Plain s
unfolding escape_json_string
digits-Plain [] h = (refl, refl)
digits-Plain (c ∷ rest) h =
    let digit = and-eq-true _ _ h in
    let plain = digits-Plain rest digit.1 in
    (rw (escape-digit c digit.0, plain.0) refl, ground (arith, digit.0, plain.1))

-- A text with lines that are indented, behind its name.
embedded-IsField :
    (depth : ℕ) (name : Str) (j : Json) (text : Str)
    → Plain name
    → Reads j text []
    → IsField name j (named_line depth name (indent_embedded_json text depth))
unfolding named_line
embedded-IsField depth name j text plain h =
    IsField-Plain depth name j _ plain (record { at = indent_embedded_json-Reads j text depth h })

count-IsField :
    (depth count : ℕ)
    → IsField (codes "record_count") (string (to_string count)) (count_line depth count)
unfolding named_line escape_json_string
count-IsField depth count =
    IsField-Plain depth (codes "record_count") (string (to_string count)) _ (refl, refl)
      (record {
        at = λ rest. reads_string _ _ rest (
            rw (append_assoc (to_string count)) (
              read-Plain (to_string count)
                (digits-Plain (to_string count) (to_string-are_digits count)) rest));
      })

abbrev owner_fields : Attribution → List Str → Fields
owner_fields attribution tags = attribution_field attribution (tags_field tags no_field)

owner-Entries :
    (depth : ℕ) (attribution : Attribution) (tags : List Str)
    → AttributionRenderable attribution
    → All Renderable tags
    → Entries (owner_fields attribution tags) (owner_lines (suc depth) attribution tags)
unfolding owner_lines escape_json_string
owner-Entries depth attribution tags a t =
    entry _ _ _ _ _ (attribution-IsField attribution (suc depth) a)
      (entry _ _ _ _ _ (array_line-IsField depth (codes "tags") tags (refl, refl) t) no_entry)

abbrev pub context_fields : LogCollection → Fields
context_fields c = append_fields (string_fields (collection_strings c)) (
    field (codes "record_count") (string (to_string (length c.records)))
      (owner_fields c.attribution c.tags))

context-IsField :
    (c : LogCollection)
    → CollectionRenderable c
    → IsField (codes "collection") (object (context_fields c)) (render_collection_context c 3)
unfolding render_collection_context escape_json_string str_eq
context-IsField c h =
    object_entry-IsField 3 (codes "collection") _ _ (refl, refl)
      (entry_lines-IsBlock _ _ (
        Entries-append _ _ _ _ (string_lines-Entries 4 (collection_strings c) refl h.texts) (
          entry _ _ _ _ _ (count-IsField 4 (length c.records))
            (owner-Entries 3 c.attribution c.tags h.attribution h.tags))))

system-IsField :
    (s : SystemMetadata)
    → SystemRenderable s
    → IsField (codes "system") (system_doc s) (render_system s 3)
unfolding render_system escape_json_string str_eq
system-IsField s h =
    object_entry-IsField 3 (codes "system") _ _ (refl, refl)
      (entry_lines-IsBlock _ _ (
        Entries-append _ _ _ _ (string_lines-Entries 4 (system_strings s) refl h.texts)
          (owner-Entries 3 s.attribution s.tags h.attribution h.tags)))

network-IsField :
    (n : NetworkMetadata)
    → NetworkRenderable n
    → IsField (codes "network") (network_doc n) (render_network n 3)
unfolding render_network escape_json_string str_eq
network-IsField n h =
    object_entry-IsField 3 (codes "network") _ _ (refl, refl)
      (entry_lines-IsBlock _ _ (
        Entries-append _ _ _ _ (string_lines-Entries 4 (network_strings n) refl h.texts)
          (owner-Entries 3 n.attribution n.tags h.attribution h.tags)))

site-IsField :
    (s : SiteMetadata) → SiteRenderable s → IsField (codes "site") (site_doc s) (render_site s 3)
unfolding render_site escape_json_string str_eq
site-IsField s h =
    object_entry-IsField 3 (codes "site") _ _ (refl, refl)
      (entry_lines-IsBlock _ _ (string_lines-Entries 4 (site_strings s) refl h.texts))

-- The field of a part that may be missing.
abbrev pub field_if : {A : Type 0} → Str → (A → Json) → Option A → Fields
field_if name doc none = no_field
field_if name doc (some x) = field name (doc x) no_field

abbrev pub IfThere : {A : Type 0} → (A → Type 0) → Option A → Type 0
IfThere P none = Unit
IfThere P (some x) = P x

if_there-Entries :
    {A : Type 0} (P : A → Type 0) (name : Str) (doc : A → Json) (render : A → Str)
    → ((x : A) → P x → IsField name (doc x) (render x))
    → (found : Option A) → IfThere P found
    → Entries (field_if name doc found) (if_there render found)
if_there-Entries P name doc render h none p = no_entry
if_there-Entries P name doc render h (some x) p =
    entry name (doc x) (render x) no_field [] (h x p) no_entry

-- No string of the result has a control byte without a short escape.
pub record CollectionResultRenderable (r : CollectionProcessingResult) : Type 0 where
  pub collection : CollectionRenderable r.collection
  pub system : IfThere SystemRenderable r.system
  pub network : IfThere NetworkRenderable r.network
  pub site : IfThere SiteRenderable r.site
  pub parsed : All ResultRenderable r.parsed

pub record ProcessingRenderable (r : BundleProcessingResult) : Type 0 where
  pub bundle : BundleRenderable r.bundle
  pub collections : All CollectionResultRenderable r.collections
  pub reports : All FindingRenderable r.reports

-- What the text of a processed bundle is to denote.
unfoldable pub collection_result_doc : CollectionProcessingResult → Json
collection_result_doc r = object (
    field (codes "collection") (object (context_fields r.collection)) (
      append_fields (field_if (codes "system") system_doc r.system) (
        append_fields (field_if (codes "network") network_doc r.network) (
          append_fields (field_if (codes "site") site_doc r.site)
            (field (codes "parser_output") (results_doc r.parsed) no_field)))))

unfoldable pub processing_doc : BundleProcessingResult → Json
processing_doc r = object (
    field (codes "bundle") (bundle_doc r.bundle) (
      field (codes "collections") (array (docs_of collection_result_doc r.collections))
        (field (codes "report_output") (reports_doc r.reports) no_field)))

collection_result-IsElement :
    (r : CollectionProcessingResult)
    → CollectionResultRenderable r
    → IsElement (collection_result_doc r) (render_collection_result r)
unfolding render_collection_result collection_result_doc escape_json_string
collection_result-IsElement r h = object_lines-IsElement 2 _ _ (
    entry _ _ _ _ _ (context-IsField r.collection h.collection) (
      Entries-append _ _ _ _ (if_there-Entries _ _ _ _ system-IsField r.system h.system) (
        Entries-append _ _ _ _ (if_there-Entries _ _ _ _ network-IsField r.network h.network) (
          Entries-append _ _ _ _ (if_there-Entries _ _ _ _ site-IsField r.site h.site) (
            entry _ _ _ _ _
              (embedded-IsField 3 (codes "parser_output") _ _ (refl, refl)
                (render_results_as_json-Reads r.parsed h.parsed))
              no_entry)))))

-- What is rendered for a processed bundle is a JSON text, up to its end, of an object with the document
-- of the bundle, of each of its collections in order, with those of its system, network and site that
-- were found and of its parsed records, and of the findings. No string in it may have a control byte
-- without a short escape.
pub render_bundle_processing_result_as_json-Reads :
    (r : BundleProcessingResult)
    → ProcessingRenderable r
    → Reads (processing_doc r) (render_bundle_processing_result_as_json r) []
unfolding render_bundle_processing_result_as_json processing_doc escape_json_string append_indent
render_bundle_processing_result_as_json-Reads r h = rw append-nil at (
    (object-IsText 0 _ _ (
        entry_lines-IsBlock _ _ (
          entry _ _ _ _ _
            (embedded-IsField 1 (codes "bundle") _ _ (refl, refl)
              (render_bundle_as_json-Reads r.bundle h.bundle))
            (entry _ _ _ _ _
              (list_line-IsField (codes "collections") _ _ (refl, refl)
                (map-Elements _ _ _ collection_result-IsElement r.collections h.collections))
              (entry _ _ _ _ _
                (embedded-IsField 1 (codes "report_output") _ _ (refl, refl)
                  (render_reports_as_json-Reads r.reports h.reports))
                no_entry))))).at
      [])
