-- ===== src/Render/BundleReads.antt =====
-- What `render_bundle_as_json` of src/IngestionBundle.cpp writes is JSON.
use parser_framework.Base.{List, [], ◌∷◌, map, refl, append-nil, str_eq, Str, codes, All}
use parser_framework.Ingestion.{
  SiteMetadata, NetworkMetadata, SystemMetadata, LogCollection, IngestionBundle,
}
use parser_framework.Json.Grammar.{Json, array, object, Values, no_field, field, Reads}
use parser_framework.Json.{append_indent, escape_json_string}
use parser_framework.Render.Arrays.{Elements, no_element, next, strings, array-IsText, IsElement}
use parser_framework.Render.Blocks.{
  Renderable, Plain, IsField, no_entry, entry, append_fields, Entries-append, IsField-Plain,
  entry_lines-IsBlock, object-IsText, object_entry-IsField,
}
use parser_framework.Render.BundleDocuments.{
  ValueRenderable, string_fields, string_lines-Entries, array_line-IsField, object_lines-IsElement,
  AttributionRenderable, attribution-IsField, tags-IsField, tags_field, attribution_field,
  OrganizationRenderable, organization_doc, organization-IsElement,
}
use parser_framework.Render.Bundles.{
  site_strings, network_strings, system_strings, collection_strings, named_line, render_site,
  render_network, render_system, render_collection, list_line, bundle_strings, producer_strings,
  storage_strings, render_bundle_as_json,
}
use parser_framework.Render.Documents.{docs_of}

pub record SiteRenderable (s : SiteMetadata) : Type 0 where
  pub texts : All ValueRenderable (site_strings s)

abbrev pub site_doc : SiteMetadata → Json
site_doc s = object (string_fields (site_strings s))

site-IsElement : (s : SiteMetadata) → SiteRenderable s → IsElement (site_doc s) (render_site s)
unfolding render_site escape_json_string str_eq
site-IsElement s h =
    object_lines-IsElement 2 _ _ (string_lines-Entries 3 (site_strings s) refl h.texts)

pub record NetworkRenderable (n : NetworkMetadata) : Type 0 where
  pub texts : All ValueRenderable (network_strings n)
  pub attribution : AttributionRenderable n.attribution
  pub tags : All Renderable n.tags

abbrev pub network_doc : NetworkMetadata → Json
network_doc n = object (
    append_fields (string_fields (network_strings n))
      (attribution_field n.attribution (tags_field n.tags no_field)))

network-IsElement :
    (n : NetworkMetadata) → NetworkRenderable n → IsElement (network_doc n) (render_network n)
unfolding render_network escape_json_string str_eq
network-IsElement n h = object_lines-IsElement 2 _ _ (
    Entries-append _ _ _ _ (string_lines-Entries 3 (network_strings n) refl h.texts) (
      entry _ _ _ _ _ (attribution-IsField n.attribution 3 h.attribution)
        (entry _ _ _ _ _ (tags-IsField n.tags h.tags) no_entry)))

pub record SystemRenderable (s : SystemMetadata) : Type 0 where
  pub texts : All ValueRenderable (system_strings s)
  pub attribution : AttributionRenderable s.attribution
  pub tags : All Renderable s.tags

abbrev pub system_doc : SystemMetadata → Json
system_doc s = object (
    append_fields (string_fields (system_strings s))
      (attribution_field s.attribution (tags_field s.tags no_field)))

system-IsElement :
    (s : SystemMetadata) → SystemRenderable s → IsElement (system_doc s) (render_system s)
unfolding render_system escape_json_string str_eq
system-IsElement s h = object_lines-IsElement 2 _ _ (
    Entries-append _ _ _ _ (string_lines-Entries 3 (system_strings s) refl h.texts) (
      entry _ _ _ _ _ (attribution-IsField s.attribution 3 h.attribution)
        (entry _ _ _ _ _ (tags-IsField s.tags h.tags) no_entry)))

pub record CollectionRenderable (c : LogCollection) : Type 0 where
  pub texts : All ValueRenderable (collection_strings c)
  pub attribution : AttributionRenderable c.attribution
  pub tags : All Renderable c.tags
  pub records : All Renderable c.records

abbrev pub collection_doc : LogCollection → Json
collection_doc c = object (
    append_fields (string_fields (collection_strings c)) (
      attribution_field c.attribution
        (tags_field c.tags (field (codes "records") (array (strings c.records)) no_field))))

collection-IsElement :
    (c : LogCollection)
    → CollectionRenderable c
    → IsElement (collection_doc c) (render_collection c)
unfolding render_collection escape_json_string str_eq
collection-IsElement c h = object_lines-IsElement 2 _ _ (
    Entries-append _ _ _ _ (string_lines-Entries 3 (collection_strings c) refl h.texts) (
      entry _ _ _ _ _ (attribution-IsField c.attribution 3 h.attribution) (
        entry _ _ _ _ _ (tags-IsField c.tags h.tags) (
          entry _ _ _ _ _ (array_line-IsField 2 (codes "records") c.records (refl, refl) h.records)
            no_entry))))

-- No string of the bundle has a control byte without a short escape.
pub record BundleRenderable (b : IngestionBundle) : Type 0 where
  pub texts : All ValueRenderable (bundle_strings b)
  pub producer : All ValueRenderable (producer_strings b)
  pub storage : All ValueRenderable (storage_strings b)
  pub organizations : All OrganizationRenderable b.organizations
  pub sites : All SiteRenderable b.sites
  pub networks : All NetworkRenderable b.networks
  pub systems : All SystemRenderable b.systems
  pub collections : All CollectionRenderable b.collections

pub map-Elements :
    {A : Type 0} (P : A → Type 0) (doc : A → Json) (render : A → Str)
    → ((x : A) → P x → IsElement (doc x) (render x))
    → (xs : List A) → All P xs
    → Elements (docs_of doc xs) (map render xs)
map-Elements P doc render h [] p = no_element
map-Elements P doc render h (x ∷ rest) p =
    next _ _ _ _ (h x p.0) (map-Elements P doc render h rest p.1)

pub list_line-IsField :
    (name : Str) (values : Values) (texts : List Str)
    → Plain name
    → Elements values texts
    → IsField name (array values) (list_line name texts)
unfolding list_line named_line
list_line-IsField name values texts plain h =
    IsField-Plain 1 name (array values) _ plain (array-IsText 1 values texts h)

-- What the text of a bundle is to denote.
unfoldable pub bundle_doc : IngestionBundle → Json
bundle_doc b = object (
    append_fields (string_fields (bundle_strings b)) (
      field (codes "producer") (object (string_fields (producer_strings b))) (
        field (codes "storage") (object (string_fields (storage_strings b))) (
          field (codes "organizations") (array (docs_of organization_doc b.organizations)) (
            field (codes "sites") (array (docs_of site_doc b.sites)) (
              field (codes "networks") (array (docs_of network_doc b.networks)) (
                field (codes "systems") (array (docs_of system_doc b.systems)) (
                  field (codes "collections") (array (docs_of collection_doc b.collections))
                    no_field))))))))

pub render_bundle_as_json-Reads :
    (b : IngestionBundle) → BundleRenderable b → Reads (bundle_doc b) (render_bundle_as_json b) []
unfolding render_bundle_as_json bundle_doc escape_json_string str_eq append_indent
render_bundle_as_json-Reads b h = rw append-nil at (
    (object-IsText 0 _ _ (
        entry_lines-IsBlock _ _ (
          Entries-append _ _ _ _ (string_lines-Entries 1 (bundle_strings b) refl h.texts) (
            entry _ _ _ _ _
              (object_entry-IsField 1 (codes "producer") _ _ (refl, refl)
                (entry_lines-IsBlock _ _
                  (string_lines-Entries 2 (producer_strings b) refl h.producer)))
              (entry _ _ _ _ _
                (object_entry-IsField 1 (codes "storage") _ _ (refl, refl)
                  (entry_lines-IsBlock _ _
                    (string_lines-Entries 2 (storage_strings b) refl h.storage)))
                (entry _ _ _ _ _
                  (list_line-IsField (codes "organizations") _ _ (refl, refl)
                    (map-Elements _ _ _ organization-IsElement b.organizations h.organizations))
                  (entry _ _ _ _ _
                    (list_line-IsField (codes "sites") _ _ (refl, refl)
                      (map-Elements _ _ _ site-IsElement b.sites h.sites))
                    (entry _ _ _ _ _
                      (list_line-IsField (codes "networks") _ _ (refl, refl)
                        (map-Elements _ _ _ network-IsElement b.networks h.networks))
                      (entry _ _ _ _ _
                        (list_line-IsField (codes "systems") _ _ (refl, refl)
                          (map-Elements _ _ _ system-IsElement b.systems h.systems))
                        (entry _ _ _ _ _
                          (list_line-IsField (codes "collections") _ _ (refl, refl)
                            (map-Elements _ _ _ collection-IsElement b.collections h.collections))
                          no_entry)))))))))).at
      [])
