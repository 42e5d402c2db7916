-- ===== src/Ingestion/Validation.antt =====
-- The checks of `load_bundle` in src/IngestionBundle.cpp, behind the reading of the document. A
-- `std::set` of ids serves membership only, and is the list of them.
use parser_framework.Base.{
  for_all, not, ◌&&◌, List, [], ◌∷◌, ◌++◌, map, Option, none, some, if◌then◌else◌, is_empty, Str,
  codes, str_eq, contains, Result, ok, ◌>>◌, throw_if,
}
use parser_framework.Ingestion.{
  Attribution, NetworkMetadata, SystemMetadata, LogCollection, IngestionBundle,
}

abbrev pub duplicate_id : Str → Str → Str
duplicate_id label id = codes "Duplicate " ++ (label ++ (codes " id [" ++ (id ++ codes "]")))

-- `ensure_unique_ids`, on the ids of the entries; `seen` is the set.
unfoldable pub ensure_unique_ids : List Str → Str → List Str → Result (Unit {0})
ensure_unique_ids seen label [] = ok tt
ensure_unique_ids seen label (id ∷ rest) = do
  throw_if (contains seen id) (duplicate_id label id)
  ensure_unique_ids (id ∷ seen) label rest

abbrev pub unknown_reference : Str → Str → Str
unknown_reference value field =
    codes "Unknown reference [" ++ (value ++ (codes "] in field [" ++ (field ++ codes "]")))

unfoldable pub validate_reference : List Str → Str → Str → Result (Unit {0})
validate_reference ids value field =
    if is_empty value
    then ok tt
    else throw_if (not (contains ids value)) (unknown_reference value field)

abbrev pub unknown_organisation : Str → Str → Str
unknown_organisation value place =
    codes "Unknown organisation reference [" ++ (value ++ (codes "] in " ++ place))

-- The inner loop of `validate_attribution`.
unfoldable pub validate_organisations : List Str → Str → List Str → Result (Unit {0})
validate_organisations organisation_ids place [] = ok tt
validate_organisations organisation_ids place (value ∷ rest) = do
  throw_if (not (contains organisation_ids value)) (unknown_organisation value place)
  validate_organisations organisation_ids place rest

unfoldable pub validate_attribution : Attribution → List Str → Str → Result (Unit {0})
unfolding validate_organisations
validate_attribution attribution organisation_ids context = do
  validate_organisations organisation_ids (context ++ codes ".owner_org_ids")
      attribution.owner_org_ids
  validate_organisations organisation_ids (context ++ codes ".operator_org_ids")
      attribution.operator_org_ids
  validate_organisations organisation_ids (context ++ codes ".tenant_org_ids")
      attribution.tenant_org_ids
  validate_organisations organisation_ids (context ++ codes ".provider_org_ids")
      attribution.provider_org_ids

-- The four sets of ids.
pub record Ids : Type 0 where
  pub organisations : List Str
  pub sites : List Str
  pub networks : List Str
  pub systems : List Str

abbrev pub collect_ids : IngestionBundle → Ids
collect_ids bundle = record {
  organisations = map (λ o. o.id) bundle.organizations;
  sites = map (λ s. s.id) bundle.sites;
  networks = map (λ n. n.id) bundle.networks;
  systems = map (λ s. s.id) bundle.systems;
}

abbrev pub context_of : Str → Str → Str
context_of kind id = kind ++ (codes "[" ++ (id ++ codes "]"))

unfoldable pub validate_network : Ids → NetworkMetadata → Result (Unit {0})
unfolding validate_reference validate_attribution
validate_network ids network = do
  validate_reference ids.sites network.site_id (codes "networks.site_id")
  validate_attribution network.attribution ids.organisations
      (context_of (codes "networks") network.id)

unfoldable pub validate_system : Ids → SystemMetadata → Result (Unit {0})
unfolding validate_reference validate_attribution
validate_system ids system = do
  validate_reference ids.networks system.network_id (codes "systems.network_id")
  validate_reference ids.sites system.site_id (codes "systems.site_id")
  validate_attribution system.attribution ids.organisations (context_of (codes "systems") system.id)

-- `std::find_if` over the systems.
unfoldable pub find_system : Str → List SystemMetadata → Option SystemMetadata
find_system id [] = none
find_system id (system ∷ rest) = if str_eq system.id id then some system else find_system id rest

abbrev pub mismatch : Str → Str → Str
mismatch id field =
    codes "Collection ["
    ++ (id ++ (codes "] " ++ (field ++ (codes " does not match parent system " ++ field))))

unfoldable pub validate_parent : LogCollection → Option SystemMetadata → Result (Unit {0})
validate_parent collection none = ok tt
validate_parent collection (some system) = do
  throw_if (not (str_eq system.network_id collection.network_id))
      (mismatch collection.id (codes "network_id"))
  throw_if (not (str_eq system.site_id collection.site_id))
      (mismatch collection.id (codes "site_id"))

unfoldable pub validate_collection : Ids → List SystemMetadata → LogCollection → Result (Unit {0})
unfolding validate_reference validate_attribution find_system validate_parent
validate_collection ids systems collection = do
  validate_reference ids.systems collection.system_id (codes "collections.system_id")
  validate_reference ids.networks collection.network_id (codes "collections.network_id")
  validate_reference ids.sites collection.site_id (codes "collections.site_id")
  validate_attribution collection.attribution ids.organisations
      (context_of (codes "collections") collection.id)
  validate_parent collection (find_system collection.system_id systems)

unfoldable pub validate_producer : Ids → Str → Result (Unit {0})
validate_producer ids organisation_id =
    throw_if (not (is_empty organisation_id) && not (contains ids.organisations organisation_id))
      (unknown_organisation organisation_id (codes "producer.organisation_id"))

unfoldable pub validate_bundle : IngestionBundle → Result (Unit {0})
unfolding ensure_unique_ids validate_producer validate_network validate_system validate_collection
    for_all
validate_bundle bundle = do
  ensure_unique_ids [] (codes "organization") (map (λ o. o.id) bundle.organizations)
  ensure_unique_ids [] (codes "site") (map (λ s. s.id) bundle.sites)
  ensure_unique_ids [] (codes "network") (map (λ n. n.id) bundle.networks)
  ensure_unique_ids [] (codes "system") (map (λ s. s.id) bundle.systems)
  ensure_unique_ids [] (codes "collection") (map (λ c. c.id) bundle.collections)
  validate_producer (collect_ids bundle) bundle.producer.organisation_id
  for_all (validate_network (collect_ids bundle)) bundle.networks
  for_all (validate_system (collect_ids bundle)) bundle.systems
  for_all (validate_collection (collect_ids bundle) bundle.systems) bundle.collections
