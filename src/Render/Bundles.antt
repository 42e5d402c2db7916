-- ===== src/Render/Bundles.antt =====
-- `render_bundle_as_json` of src/IngestionBundle.cpp.
use parser_framework.Base.{ℕ, zero, suc, List, [], ◌∷◌, ◌++◌, map, Str, codes}
use parser_framework.Ingestion.{
  Attribution, OrganizationMetadata, SiteMetadata, NetworkMetadata, SystemMetadata, LogCollection,
  IngestionBundle,
}
use parser_framework.Json.{append_indent}
use parser_framework.Render.Results.{render_string_row, object_entry, string_line}
use parser_framework.Render.{entry_lines}

-- The members of an object whose values are strings.
unfoldable pub string_lines : ℕ → List (Str × Str) → List Str
unfolding string_line
string_lines depth [] = []
string_lines depth ((name, value) ∷ rest) = string_line depth name value ∷ string_lines depth rest

-- At depth 0 a new line follows the bracket.
abbrev pub array_end : ℕ → Str
array_end zero = codes "]\n"
array_end (suc depth) = codes "]"

unfoldable pub render_string_array : List Str → ℕ → Str
unfolding render_string_row
render_string_array values depth = codes "[" ++ (render_string_row values ++ array_end depth)

-- `"name": ` and a text, at a depth.
unfoldable pub named_line : ℕ → Str → Str → Str
unfolding append_indent
named_line depth name text = append_indent depth ++ (b'"' ∷ (name ++ (codes "\": " ++ text)))

unfoldable pub array_line : ℕ → Str → List Str → Str
unfolding named_line render_string_array
array_line depth name values = named_line depth name (render_string_array values depth)

-- An object whose braces stand at the depth.
unfoldable pub object_lines : ℕ → List Str → Str
unfolding append_indent entry_lines
object_lines depth entries =
    append_indent depth
    ++ (codes "{\n" ++ (entry_lines entries ++ (append_indent depth ++ codes "}")))

unfoldable pub render_attribution : Attribution → ℕ → Str
unfolding object_lines array_line
render_attribution attribution depth = object_lines depth (
    array_line (suc depth) (codes "owner_org_ids") attribution.owner_org_ids
    ∷ array_line (suc depth) (codes "operator_org_ids") attribution.operator_org_ids
    ∷ array_line (suc depth) (codes "tenant_org_ids") attribution.tenant_org_ids
    ∷ array_line (suc depth) (codes "provider_org_ids") attribution.provider_org_ids
    ∷ [])

unfoldable pub render_tags : List Str → ℕ → Str
unfolding array_line
render_tags tags depth = array_line depth (codes "tags") tags

abbrev pub organization_strings : OrganizationMetadata → List (Str × Str)
organization_strings o = (codes "id", o.id) ∷ (codes "name", o.name) ∷ (codes "kind", o.kind) ∷ []

abbrev pub site_strings : SiteMetadata → List (Str × Str)
site_strings s =
    (codes "id", s.id)
    ∷ (codes "name", s.name)
    ∷ (codes "country_code", s.country_code)
    ∷ (codes "region", s.region)
    ∷ (codes "city", s.city)
    ∷ (codes "timezone", s.timezone)
    ∷ []

abbrev pub network_strings : NetworkMetadata → List (Str × Str)
network_strings n =
    (codes "id", n.id)
    ∷ (codes "name", n.name)
    ∷ (codes "kind", n.kind)
    ∷ (codes "environment", n.environment)
    ∷ (codes "site_id", n.site_id)
    ∷ []

abbrev pub system_strings : SystemMetadata → List (Str × Str)
system_strings s =
    (codes "id", s.id)
    ∷ (codes "name", s.name)
    ∷ (codes "kind", s.kind)
    ∷ (codes "vendor", s.vendor)
    ∷ (codes "product", s.product)
    ∷ (codes "deployment_model", s.deployment_model)
    ∷ (codes "network_id", s.network_id)
    ∷ (codes "site_id", s.site_id)
    ∷ []

abbrev pub collection_strings : LogCollection → List (Str × Str)
collection_strings c =
    (codes "id", c.id)
    ∷ (codes "name", c.name)
    ∷ (codes "system_id", c.system_id)
    ∷ (codes "network_id", c.network_id)
    ∷ (codes "site_id", c.site_id)
    ∷ (codes "log_type", c.log_type)
    ∷ (codes "format", c.format)
    ∷ (codes "classification", c.classification)
    ∷ (codes "observed_start", c.observed_start)
    ∷ (codes "observed_end", c.observed_end)
    ∷ []

-- `"attribution": `, and the object, which begins with the spaces of its depth.
abbrev pub attribution_line : ℕ → Attribution → Str
attribution_line depth attribution =
    named_line depth (codes "attribution") (render_attribution attribution depth)

-- The rounds of the five loops, without the commas.
unfoldable pub render_organization : OrganizationMetadata → Str
unfolding object_lines string_lines render_tags
render_organization o =
    object_lines 2 (string_lines 3 (organization_strings o) ++ render_tags o.tags 3 ∷ [])

unfoldable pub render_site : SiteMetadata → Str
unfolding object_lines string_lines
render_site s = object_lines 2 (string_lines 3 (site_strings s))

unfoldable pub render_network : NetworkMetadata → Str
unfolding object_lines string_lines render_tags
render_network n = object_lines 2 (
    string_lines 3 (network_strings n)
    ++ attribution_line 3 n.attribution ∷ render_tags n.tags 3 ∷ [])

unfoldable pub render_system : SystemMetadata → Str
unfolding object_lines string_lines render_tags
render_system s = object_lines 2 (
    string_lines 3 (system_strings s)
    ++ attribution_line 3 s.attribution ∷ render_tags s.tags 3 ∷ [])

unfoldable pub render_collection : LogCollection → Str
unfolding object_lines string_lines render_tags array_line
render_collection c = object_lines 2 (
    string_lines 3 (collection_strings c)
    ++ attribution_line 3 c.attribution
      ∷ render_tags c.tags 3
      ∷ array_line 3 (codes "records") c.records
      ∷ [])

-- `"name": [`, the entries and the closing bracket.
unfoldable pub list_line : Str → List Str → Str
unfolding named_line entry_lines append_indent
list_line name entries =
    named_line 1 name (codes "[\n" ++ (entry_lines entries ++ (append_indent 1 ++ codes "]")))

abbrev pub bundle_strings : IngestionBundle → List (Str × Str)
bundle_strings b =
    (codes "schema_version", b.schema_version)
    ∷ (codes "bundle_id", b.bundle_id)
    ∷ (codes "produced_at", b.produced_at)
    ∷ []

abbrev pub producer_strings : IngestionBundle → List (Str × Str)
producer_strings b =
    (codes "component_id", b.producer.component_id)
    ∷ (codes "component_type", b.producer.component_type)
    ∷ (codes "organisation_id", b.producer.organisation_id)
    ∷ (codes "region", b.producer.region)
    ∷ []

abbrev pub storage_strings : IngestionBundle → List (Str × Str)
storage_strings b =
    (codes "backend", b.storage.backend)
    ∷ (codes "database", b.storage.database)
    ∷ (codes "bundle_collection", b.storage.bundle_collection)
    ∷ (codes "result_collection", b.storage.result_collection)
    ∷ []

unfoldable pub render_bundle_as_json : IngestionBundle → Str
unfolding string_lines object_entry entry_lines list_line render_organization render_site
    render_network render_system render_collection
render_bundle_as_json b =
    codes "{\n"
    ++ (entry_lines (
          string_lines 1 (bundle_strings b)
          ++ object_entry 1 (codes "producer") (entry_lines (string_lines 2 (producer_strings b)))
            ∷ object_entry 1 (codes "storage") (entry_lines (string_lines 2 (storage_strings b)))
            ∷ list_line (codes "organizations") (map render_organization b.organizations)
            ∷ list_line (codes "sites") (map render_site b.sites)
            ∷ list_line (codes "networks") (map render_network b.networks)
            ∷ list_line (codes "systems") (map render_system b.systems)
            ∷ list_line (codes "collections") (map render_collection b.collections)
            ∷ [])
        ++ codes "}")
