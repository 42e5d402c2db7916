-- ===== src/Ingestion/WellFormed.antt =====
-- What the checks of `load_bundle` amount to.
use parser_framework.Base.{
  Passes, and_iff, throw_if_iff, for_all_iff, Distinct, false, not, List, [], ◌∷◌, map, Option,
  none, some, ◌≡◌, refl, ◌↔◌, inl, inr, arith, Str, codes, str_eq, str_eq_iff, contains, ok,
  throw_if, All, Bool-cases,
}
use parser_framework.Ingestion.Meaning.{
  Refers, Known, AttributionKnown, Agrees, NetworkOk, SystemOk, CollectionOk, IsWellFormed,
}
use parser_framework.Ingestion.{
  Attribution, NetworkMetadata, SystemMetadata, LogCollection, IngestionBundle,
}
use parser_framework.Ingestion.Validation.{
  ensure_unique_ids, validate_reference, validate_organisations, validate_attribution, Ids,
  collect_ids, validate_network, validate_system, find_system, validate_parent, validate_collection,
  validate_producer, validate_bundle, context_of,
}

-- None of the ids is in the set.
abbrev Fresh : List Str → List Str → Type 0
Fresh seen = All (λ id. contains seen id ≡ false)

Fresh-cons :
    (id : Str) (seen ids : List Str)
    → Fresh (id ∷ seen) ids ↔ ((contains ids id ≡ false) × Fresh seen ids)
unfolding contains
Fresh-cons id seen [] = (λ h. (refl, tt), λ h. tt)
Fresh-cons id seen (x ∷ ids) =
    let ih = Fresh-cons id seen ids in
    (
      λ h. (
        ground (arith, (ih.0 h.1).0, h.0, str_eq_iff id x, str_eq_iff x id),
        (ground arith, (ih.0 h.1).1),
      ),
      λ h. (
        ground (arith, h.0, h.1.0, str_eq_iff id x, str_eq_iff x id),
        ih.1 (ground (arith, h.0), h.1.1),
      ),
    )

unique_iff :
    (seen : List Str) (label : Str) (ids : List Str)
    → Passes (ensure_unique_ids seen label ids) ↔ (Fresh seen ids × Distinct ids)
unfolding ensure_unique_ids
unique_iff seen label [] = (λ h. (tt, tt), λ h. refl)
unique_iff seen label (id ∷ ids) = elim (Bool-cases (contains seen id)) [
  | inl old ↦ rw old (λ h. absurd (cc), λ h. absurd (cc (h.0.0)))
  | inr new ↦ rw new (
      let ih = unique_iff (id ∷ seen) label ids in
      let fresh = Fresh-cons id seen ids in
      (
        λ h. ((refl, (fresh.0 (ih.0 h).0).1), ((fresh.0 (ih.0 h).0).0, (ih.0 h).1)),
        λ h. ih.1 (fresh.1 (h.1.0, h.0.1), h.1.1),
      ))
]

Fresh-nil : (ids : List Str) → Fresh [] ids
unfolding contains
Fresh-nil [] = tt
Fresh-nil (id ∷ ids) = (refl, Fresh-nil ids)

ids_iff : (label : Str) (ids : List Str) → Passes (ensure_unique_ids [] label ids) ↔ Distinct ids
ids_iff label ids = let e = unique_iff [] label ids in (λ h. (e.0 h).1, λ h. e.1 (Fresh-nil ids, h))

reference_iff :
    (ids : List Str) (value field : Str)
    → Passes (validate_reference ids value field) ↔ Refers ids value
unfolding validate_reference
reference_iff ids [] field = (λ h. inl refl, λ h. refl)
reference_iff ids (c ∷ value) field =
    let e = throw_if_iff (contains ids (c ∷ value)) _ in
    (λ h. inr (e.0 h), λ h. elim h [ inl p ↦ absurd (cc) | inr p ↦ e.1 p ])

organisations_iff :
    (ids : List Str) (place : Str) (values : List Str)
    → Passes (validate_organisations ids place values) ↔ Known ids values
unfolding validate_organisations
organisations_iff ids place [] = (λ h. tt, λ h. refl)
organisations_iff ids place (value ∷ values) =
    and_iff (throw_if (not (contains ids value)) _) (validate_organisations ids place values)
      (throw_if_iff (contains ids value) _) (organisations_iff ids place values)

attribution_iff :
    (a : Attribution) (ids : List Str) (context : Str)
    → Passes (validate_attribution a ids context) ↔ AttributionKnown ids a
unfolding validate_attribution
attribution_iff a ids context = and_iff _ _ (organisations_iff ids _ a.owner_org_ids) (
    and_iff _ _ (organisations_iff ids _ a.operator_org_ids) (
      and_iff _ _ (organisations_iff ids _ a.tenant_org_ids)
        (organisations_iff ids _ a.provider_org_ids)))

network_iff : (ids : Ids) (n : NetworkMetadata) → Passes (validate_network ids n) ↔ NetworkOk ids n
unfolding validate_network
network_iff ids n =
    and_iff _ _ (reference_iff ids.sites n.site_id (codes "networks.site_id"))
      (attribution_iff n.attribution ids.organisations (context_of (codes "networks") n.id))

system_iff : (ids : Ids) (s : SystemMetadata) → Passes (validate_system ids s) ↔ SystemOk ids s
unfolding validate_system
system_iff ids s =
    and_iff _ _ (reference_iff ids.networks s.network_id (codes "systems.network_id")) (
      and_iff _ _ (reference_iff ids.sites s.site_id (codes "systems.site_id"))
        (attribution_iff s.attribution ids.organisations (context_of (codes "systems") s.id)))

parent_iff :
    (c : LogCollection) (s : Option SystemMetadata) → Passes (validate_parent c s) ↔ Agrees c s
unfolding validate_parent
parent_iff c none = (λ h. tt, λ h. refl)
parent_iff c (some s) =
    let network = str_eq_iff s.network_id c.network_id in
    let site = str_eq_iff s.site_id c.site_id in
    let e =
      and_iff _ _ (throw_if_iff (str_eq s.network_id c.network_id) _)
        (throw_if_iff (str_eq s.site_id c.site_id) _) in
    (λ h. (network.0 (e.0 h).0, site.0 (e.0 h).1), λ h. e.1 (network.1 h.0, site.1 h.1))

collection_iff :
    (ids : Ids) (systems : List SystemMetadata) (c : LogCollection)
    → Passes (validate_collection ids systems c) ↔ CollectionOk ids systems c
unfolding validate_collection
collection_iff ids systems c =
    and_iff _ _ (reference_iff ids.systems c.system_id (codes "collections.system_id")) (
      and_iff _ _ (reference_iff ids.networks c.network_id (codes "collections.network_id")) (
        and_iff _ _ (reference_iff ids.sites c.site_id (codes "collections.site_id")) (
          and_iff _ _
            (attribution_iff c.attribution ids.organisations
              (context_of (codes "collections") c.id))
            (parent_iff c (find_system c.system_id systems)))))

producer_iff :
    (ids : Ids) (value : Str)
    → Passes (validate_producer ids value) ↔ Refers ids.organisations value
unfolding validate_producer
producer_iff ids [] = (λ h. inl refl, λ h. refl)
producer_iff ids (c ∷ value) =
    let e = throw_if_iff (contains ids.organisations (c ∷ value)) _ in
    (λ h. inr (e.0 h), λ h. elim h [ inl p ↦ absurd (cc) | inr p ↦ e.1 p ])

-- The checks pass on exactly the well-formed bundles: each inventory's ids are distinct, every
-- reference is empty or one of the ids of its inventory, every organisation named by an attribution
-- is known, and each collection agrees with its parent system on network and site.
pub validate_bundle_iff : (b : IngestionBundle) → (validate_bundle b ≡ ok tt) ↔ IsWellFormed b
unfolding validate_bundle
validate_bundle_iff b =
    let ids = collect_ids b in
    let e = and_iff _ _ (ids_iff (codes "organization") (map (λ o. o.id) b.organizations)) (
      and_iff _ _ (ids_iff (codes "site") (map (λ s. s.id) b.sites)) (
        and_iff _ _ (ids_iff (codes "network") (map (λ n. n.id) b.networks)) (
          and_iff _ _ (ids_iff (codes "system") (map (λ s. s.id) b.systems)) (
            and_iff _ _ (ids_iff (codes "collection") (map (λ c. c.id) b.collections)) (
              and_iff _ _ (producer_iff ids b.producer.organisation_id) (
                and_iff _ _ (for_all_iff _ _ (network_iff ids) b.networks) (
                  and_iff _ _ (for_all_iff _ _ (system_iff ids) b.systems)
                    (for_all_iff _ _ (collection_iff ids b.systems) b.collections)))))))) in
    (
      λ h.
          let w = e.0 h in
          record {
            organizations_distinct = w.0;
            sites_distinct = w.1.0;
            networks_distinct = w.1.1.0;
            systems_distinct = w.1.1.1.0;
            collections_distinct = w.1.1.1.1.0;
            producer_known = w.1.1.1.1.1.0;
            networks_ok = w.1.1.1.1.1.1.0;
            systems_ok = w.1.1.1.1.1.1.1.0;
            collections_ok = w.1.1.1.1.1.1.1.1;
          },
      λ w. e.1 (
        w.organizations_distinct,
        (
          w.sites_distinct,
          (
            w.networks_distinct,
            (
              w.systems_distinct,
              (
                w.collections_distinct,
                (w.producer_known, (w.networks_ok, (w.systems_ok, w.collections_ok))),
              ),
            ),
          ),
        ),
      ),
    )
