-- ===== src/Tests/Ingestion.antt =====
-- A small bundle of src/IngestionBundle.cpp, loaded, checked and processed.
use parser_framework.Base.{◌≡◌, refl, ◌↔◌, [], ◌∷◌, some, codes, str_eq, ok, All, map, contains}
use parser_framework.Ingestion.Loaded.{AllHaveRecords, load_bundle-IsWellFormed}
use parser_framework.Ingestion.Loader.{
  load_bundle, parse_bundle, require_string, parse_producer, parse_storage, parse_inventory,
  parse_site, parse_collection,
}
use parser_framework.Ingestion.Validation.{validate_bundle}
use parser_framework.Ingestion.Meaning.{IsWellFormed}
use parser_framework.Ingestion.WellFormed.{validate_bundle_iff}
use parser_framework.Ingestion.{IngestionBundle, LogCollection, no_attribution}
use parser_framework.Pipeline.Resolve.{Resolved, process-Resolved}
use parser_framework.Pipeline.{
  IngestionPipeline, BundleProcessingResult, CollectionProcessingResult, process,
}
use parser_framework.Tests.Data.{test_libraries, test_rules, two_systems}
use parser_framework.Tests.Documents.{Doc, text, sequence, table, end, item, field_texts, yaml_of}
use parser_framework.Yaml.{Yaml}

abbrev collection_doc : Doc
collection_doc = table (
    field_texts
      (codes "id"
        ∷ codes "name"
        ∷ codes "log_type"
        ∷ codes "format"
        ∷ codes "classification"
        ∷ codes "observed_start"
        ∷ codes "observed_end"
        ∷ [])
      (item (codes "system_id") (text []) (
        item (codes "network_id") (text []) (
          item (codes "site_id") (text (codes "id"))
            (item (codes "records") (sequence (item [] (text (codes "abab")) end)) end)))))

abbrev site_doc : Doc
site_doc =
    table (field_texts (codes "id" ∷ codes "name" ∷ codes "country_code" ∷ codes "region" ∷ []) end)

abbrev root_doc : Doc
root_doc = table (
    field_texts (codes "schema_version" ∷ codes "bundle_id" ∷ codes "produced_at" ∷ []) (
      item (codes "producer")
        (table (field_texts (codes "component_id" ∷ codes "component_type" ∷ []) end))
        (item (codes "storage")
          (table (
            field_texts
              (codes "backend"
                ∷ codes "database"
                ∷ codes "bundle_collection"
                ∷ codes "result_collection"
                ∷ [])
              end))
          (item (codes "organizations") (sequence end) (
            item (codes "sites") (sequence (item [] site_doc end)) (
              item (codes "networks") (sequence end) (
                item (codes "systems") (sequence end)
                  (item (codes "collections") (sequence (item [] collection_doc end)) end))))))))

abbrev test_yaml : Yaml Doc
test_yaml = yaml_of (λ path. root_doc)

abbrev collection : LogCollection
collection = record {
  id = codes "id";
  name = codes "name";
  system_id = [];
  network_id = [];
  site_id = codes "id";
  log_type = codes "log_type";
  format = codes "format";
  classification = codes "classification";
  observed_start = codes "observed_start";
  observed_end = codes "observed_end";
  attribution = no_attribution;
  tags = [];
  records = codes "abab" ∷ [];
}

abbrev bundle : IngestionBundle
bundle = record {
  schema_version = codes "schema_version";
  bundle_id = codes "bundle_id";
  produced_at = codes "produced_at";
  producer = record {
    component_id = codes "component_id";
    component_type = codes "component_type";
    organisation_id = [];
    region = [];
  };
  storage = record {
    backend = codes "backend";
    database = codes "database";
    bundle_collection = codes "bundle_collection";
    result_collection = codes "result_collection";
  };
  organizations = [];
  sites =
      record {
        id = codes "id";
        name = codes "name";
        country_code = codes "country_code";
        region = codes "region";
        city = [];
        timezone = [];
      }
      ∷ [];
  networks = [];
  systems = [];
  collections = collection ∷ [];
}

load_bundle-bundle : load_bundle test_yaml (codes "bundle.yaml") ≡ ok bundle
unfolding load_bundle validate_bundle str_eq contains parse_bundle require_string parse_producer
    parse_storage parse_inventory parse_site parse_collection
load_bundle-bundle = refl

validate-bundle : validate_bundle bundle ≡ ok tt
unfolding validate_bundle str_eq contains
validate-bundle = refl

load_bundle-IsWellFormed_example : IsWellFormed bundle × AllHaveRecords test_yaml bundle
load_bundle-IsWellFormed_example =
    load_bundle-IsWellFormed test_yaml (codes "bundle.yaml") load_bundle-bundle

validate_bundle_iff_example : (validate_bundle bundle ≡ ok tt) ↔ IsWellFormed bundle
validate_bundle_iff_example = validate_bundle_iff bundle

abbrev pipeline : IngestionPipeline
pipeline = record {
  framework = test_rules;
  analyzer = some (record { rules = []; correlation_rules = two_systems ∷ [] });
}

process-Resolved_example :
    (r : BundleProcessingResult) × (process test_libraries pipeline bundle ≡ some r)
    × (r.bundle ≡ bundle)
    × (map (λ (c : CollectionProcessingResult). c.collection) r.collections ≡ bundle.collections)
    × All Resolved r.collections
process-Resolved_example = process-Resolved test_libraries pipeline bundle validate-bundle
