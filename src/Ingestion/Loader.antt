-- ===== src/Ingestion/Loader.antt =====
-- `load_bundle` of src/IngestionBundle.cpp: the reading of the document.
mod Fields
unfoldable pub use Fields.*
use parser_framework.Base.{
  collect, not, List, [], ◌∷◌, ◌++◌, Option, none, some, is_empty, Str, codes, Result, ok, err,
  ◌>>=◌, ◌>>◌, throw_if,
}
use parser_framework.Ingestion.Validation.{validate_bundle}
use parser_framework.Ingestion.{
  Attribution, no_attribution, ProducerMetadata, StorageHint, OrganizationMetadata, SiteMetadata,
  NetworkMetadata, SystemMetadata, LogCollection, IngestionBundle,
}
use parser_framework.Yaml.{Yaml}

abbrev pub no_sequence : Str → Str
no_sequence field = codes "Expected [" ++ (field ++ codes "] to be a sequence")

abbrev pub no_records : Str → Str
no_records id = codes "Log collection [" ++ (id ++ codes "] must include at least one record")

module _ {Node : Type 0} (yaml : Yaml Node) where
  unfoldable pub parse_producer : Node → Result ProducerMetadata
  unfolding require_string optional_string
  parse_producer producer = do
    component_id ← require_string yaml producer (codes "component_id")
    component_type ← require_string yaml producer (codes "component_type")
    organisation_id ← optional_string yaml producer (codes "organisation_id")
    region ← optional_string yaml producer (codes "region")
    ok (record {
      component_id = component_id;
      component_type = component_type;
      organisation_id = organisation_id;
      region = region;
    })

  unfoldable pub parse_storage : Node → Result StorageHint
  unfolding require_string
  parse_storage storage = do
    backend ← require_string yaml storage (codes "backend")
    database ← require_string yaml storage (codes "database")
    bundle_collection ← require_string yaml storage (codes "bundle_collection")
    result_collection ← require_string yaml storage (codes "result_collection")
    ok (record {
      backend = backend;
      database = database;
      bundle_collection = bundle_collection;
      result_collection = result_collection;
    })

  unfoldable pub parse_organization : Node → Result OrganizationMetadata
  unfolding require_string parse_string_list
  parse_organization organization = do
    id ← require_string yaml organization (codes "id")
    name ← require_string yaml organization (codes "name")
    kind ← require_string yaml organization (codes "kind")
    tags ← parse_string_list yaml organization (codes "tags")
    ok (record { id = id; name = name; kind = kind; tags = tags })

  unfoldable pub parse_site : Node → Result SiteMetadata
  unfolding require_string optional_string
  parse_site site = do
    id ← require_string yaml site (codes "id")
    name ← require_string yaml site (codes "name")
    country_code ← require_string yaml site (codes "country_code")
    region ← require_string yaml site (codes "region")
    city ← optional_string yaml site (codes "city")
    timezone ← optional_string yaml site (codes "timezone")
    ok (record {
      id = id;
      name = name;
      country_code = country_code;
      region = region;
      city = city;
      timezone = timezone;
    })

  unfoldable pub parse_network : Node → Result NetworkMetadata
  unfolding require_string parse_attribution parse_string_list
  parse_network network = do
    id ← require_string yaml network (codes "id")
    name ← require_string yaml network (codes "name")
    kind ← require_string yaml network (codes "kind")
    environment ← require_string yaml network (codes "environment")
    site_id ← require_string yaml network (codes "site_id")
    attribution ← parse_attribution yaml network
    tags ← parse_string_list yaml network (codes "tags")
    ok (record {
      id = id;
      name = name;
      kind = kind;
      environment = environment;
      site_id = site_id;
      attribution = attribution;
      tags = tags;
    })

  unfoldable pub parse_system : Node → Result SystemMetadata
  unfolding require_string parse_attribution parse_string_list
  parse_system system = do
    id ← require_string yaml system (codes "id")
    name ← require_string yaml system (codes "name")
    kind ← require_string yaml system (codes "kind")
    vendor ← require_string yaml system (codes "vendor")
    product ← require_string yaml system (codes "product")
    deployment_model ← require_string yaml system (codes "deployment_model")
    network_id ← require_string yaml system (codes "network_id")
    site_id ← require_string yaml system (codes "site_id")
    attribution ← parse_attribution yaml system
    tags ← parse_string_list yaml system (codes "tags")
    ok (record {
      id = id;
      name = name;
      kind = kind;
      vendor = vendor;
      product = product;
      deployment_model = deployment_model;
      network_id = network_id;
      site_id = site_id;
      attribution = attribution;
      tags = tags;
    })

  -- `if (parsed.records.empty()) throw ...`
  unfoldable pub require_records : LogCollection → Result LogCollection
  require_records parsed = do throw_if (is_empty parsed.records) (no_records parsed.id); ok parsed

  unfoldable pub parse_collection : Node → Result LogCollection
  unfolding require_string parse_attribution parse_string_list require_records
  parse_collection collection = do
    id ← require_string yaml collection (codes "id")
    name ← require_string yaml collection (codes "name")
    system_id ← require_string yaml collection (codes "system_id")
    network_id ← require_string yaml collection (codes "network_id")
    site_id ← require_string yaml collection (codes "site_id")
    log_type ← require_string yaml collection (codes "log_type")
    format ← require_string yaml collection (codes "format")
    classification ← require_string yaml collection (codes "classification")
    observed_start ← require_string yaml collection (codes "observed_start")
    observed_end ← require_string yaml collection (codes "observed_end")
    attribution ← parse_attribution yaml collection
    tags ← parse_string_list yaml collection (codes "tags")
    records ← parse_string_list yaml collection (codes "records")
    require_records (record {
      id = id;
      name = name;
      system_id = system_id;
      network_id = network_id;
      site_id = site_id;
      log_type = log_type;
      format = format;
      classification = classification;
      observed_start = observed_start;
      observed_end = observed_end;
      attribution = attribution;
      tags = tags;
      records = records;
    })

  -- One of the five inventories.
  unfoldable pub parse_inventory : {A : Type 0} → (Node → Result A) → Node → Str → Result (List A)
  unfolding require_node collect
  parse_inventory parse root field = do
    entries ← require_node yaml root field
    throw_if (not (yaml.is_sequence entries)) (no_sequence field)
    collect parse (yaml.items entries)

  unfoldable pub parse_bundle : Node → Result IngestionBundle
  parse_bundle root = do
    schema_version ← require_string yaml root (codes "schema_version")
    bundle_id ← require_string yaml root (codes "bundle_id")
    produced_at ← require_string yaml root (codes "produced_at")
    producer_node ← require_node yaml root (codes "producer")
    producer ← parse_producer producer_node
    storage_node ← require_node yaml root (codes "storage")
    storage ← parse_storage storage_node
    organizations ← parse_inventory parse_organization root (codes "organizations")
    sites ← parse_inventory parse_site root (codes "sites")
    networks ← parse_inventory parse_network root (codes "networks")
    systems ← parse_inventory parse_system root (codes "systems")
    collections ← parse_inventory parse_collection root (codes "collections")
    ok (record {
      schema_version = schema_version;
      bundle_id = bundle_id;
      produced_at = produced_at;
      producer = producer;
      storage = storage;
      organizations = organizations;
      sites = sites;
      networks = networks;
      systems = systems;
      collections = collections;
    })

  unfoldable pub load_bundle : Str → Result IngestionBundle
  load_bundle path = do
    root ← yaml.load_file path
    bundle ← parse_bundle root
    validate_bundle bundle
    ok bundle
