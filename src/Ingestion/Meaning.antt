-- ===== src/Ingestion/Meaning.antt =====
-- What a well-formed bundle of src/IngestionBundle.cpp is.
use parser_framework.Base.{
  Distinct, true, List, [], map, Option, none, some, ◌≡◌, ◌⊎◌, Str, contains, All,
}
use parser_framework.Ingestion.{
  Attribution, NetworkMetadata, SystemMetadata, LogCollection, IngestionBundle,
}
use parser_framework.Ingestion.Validation.{Ids, collect_ids, find_system}

-- An empty reference, or one of the ids.
abbrev pub Refers : List Str → Str → Type 0
Refers ids value = (value ≡ []) ⊎ (contains ids value ≡ true)

abbrev pub Known : List Str → List Str → Type 0
Known ids = All (λ value. contains ids value ≡ true)

abbrev pub AttributionKnown : List Str → Attribution → Type 0
AttributionKnown ids a =
    Known ids a.owner_org_ids
    × (Known ids a.operator_org_ids × (Known ids a.tenant_org_ids × Known ids a.provider_org_ids))

-- The parent system, if there is one, stands in the collection's network and site.
abbrev pub Agrees : LogCollection → Option SystemMetadata → Type 0
Agrees collection none = Unit
Agrees collection (some system) =
    (system.network_id ≡ collection.network_id) × (system.site_id ≡ collection.site_id)

abbrev pub NetworkOk : Ids → NetworkMetadata → Type 0
NetworkOk ids n = Refers ids.sites n.site_id × AttributionKnown ids.organisations n.attribution

abbrev pub SystemOk : Ids → SystemMetadata → Type 0
SystemOk ids s =
    Refers ids.networks s.network_id
    × (Refers ids.sites s.site_id × AttributionKnown ids.organisations s.attribution)

abbrev pub CollectionOk : Ids → List SystemMetadata → LogCollection → Type 0
CollectionOk ids systems c =
    Refers ids.systems c.system_id
    × (Refers ids.networks c.network_id
        × (Refers ids.sites c.site_id
            × (AttributionKnown ids.organisations c.attribution
                × Agrees c (find_system c.system_id systems))))

pub record IsWellFormed (b : IngestionBundle) : Type 0 where
  pub organizations_distinct : Distinct (map (λ o. o.id) b.organizations)
  pub sites_distinct : Distinct (map (λ s. s.id) b.sites)
  pub networks_distinct : Distinct (map (λ n. n.id) b.networks)
  pub systems_distinct : Distinct (map (λ s. s.id) b.systems)
  pub collections_distinct : Distinct (map (λ c. c.id) b.collections)
  pub producer_known : Refers (collect_ids b).organisations b.producer.organisation_id
  pub networks_ok : All (NetworkOk (collect_ids b)) b.networks
  pub systems_ok : All (SystemOk (collect_ids b)) b.systems
  pub collections_ok : All (CollectionOk (collect_ids b) b.systems) b.collections
