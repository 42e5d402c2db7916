-- ===== src/Pipeline/Resolve.antt =====
-- A bundle that passed the checks of the loader is processed with every reference resolved.
use parser_framework.Base.{
  true, List, [], ◌∷◌, ◌++◌, map, Option, none, some, ◌≡◌, refl, ap, inl, inr, ◌⊎◌, Str, str_eq,
  str_eq_iff, contains, length, All, Bool-cases, suc, ok,
}
use parser_framework.Framework.{parse_messages}
use parser_framework.Ingestion.{
  SiteMetadata, NetworkMetadata, SystemMetadata, LogCollection, IngestionBundle,
}
use parser_framework.Ingestion.Validation.{collect_ids, find_system, validate_bundle}
use parser_framework.Ingestion.Meaning.{Refers, Agrees, CollectionOk}
use parser_framework.Ingestion.WellFormed.{validate_bundle_iff}
use parser_framework.Libraries.{Libraries}
use parser_framework.Pipeline.{
  CollectionProcessingResult, BundleProcessingResult, IngestionPipeline, find_by_id,
  process_collection, process_collections, report, process,
}
use parser_framework.Report.Correlated.{correlate-Correlates}
use parser_framework.Report.Types.{ReportFinding}
use parser_framework.Report.{ReportAnalyzer, analyze_each, analyze_all}
use parser_framework.Types.{ParseResult, MessageRule}

-- The entry of that id.
abbrev pub Found : {A : Type 0} → (A → Str) → Str → Option A → Type 0
Found {A} id wanted found = (x : A) × (found ≡ some x) × (id x ≡ wanted)

find-Found :
    {A : Type 0} (id : A → Str) (xs : List A) (wanted : Str)
    → contains (map id xs) wanted ≡ true
    → Found id wanted (find_by_id id xs wanted)
unfolding find_by_id contains
find-Found id [] wanted h = absurd (cc)
find-Found id (x ∷ xs) wanted h = elim (Bool-cases (str_eq (id x) wanted)) [
  | inl p ↦ (x, rw p refl, (str_eq_iff (id x) wanted).0 p)
  | inr p ↦ rw p (find-Found id xs wanted (rw p at h))
]

Refers-Found :
    {A : Type 0} (id : A → Str) (xs : List A) (wanted : Str)
    → Refers (map id xs) wanted
    → (wanted ≡ []) ⊎ Found id wanted (find_by_id id xs wanted)
Refers-Found id xs wanted (inl e) = inl e
Refers-Found id xs wanted (inr h) = inr (find-Found id xs wanted h)

-- What a collection's result holds. A reference is empty, or what it names is found.
pub record Resolved (r : CollectionProcessingResult) : Type 0 where
  pub system :
      (r.collection.system_id ≡ [])
      ⊎ Found (λ (s : SystemMetadata). s.id) r.collection.system_id r.system
  pub network :
      (r.collection.network_id ≡ [])
      ⊎ Found (λ (n : NetworkMetadata). n.id) r.collection.network_id r.network
  pub site :
      (r.collection.site_id ≡ []) ⊎ Found (λ (s : SiteMetadata). s.id) r.collection.site_id r.site
  pub agrees : Agrees r.collection r.system
  pub one_each : length r.parsed ≡ length r.collection.records

find_system-by_id :
    (systems : List SystemMetadata) (id : Str)
    → find_system id systems ≡ find_by_id (λ (s : SystemMetadata). s.id) systems id
unfolding find_system find_by_id
find_system-by_id [] id = refl
find_system-by_id (s ∷ systems) id = rw (find_system-by_id systems id)

module _ (lib : Libraries) where
  length-parse_messages :
      (rules : List MessageRule) (records : List Str)
      → length (parse_messages lib rules records) ≡ length records
  unfolding parse_messages
  length-parse_messages rules [] = refl
  length-parse_messages rules (r ∷ records) = ap suc (length-parse_messages rules records)

  collection-Resolved :
      (rules : List MessageRule) (b : IngestionBundle) (c : LogCollection)
      → CollectionOk (collect_ids b) b.systems c
      → Resolved (process_collection lib rules b c)
  unfolding process_collection
  collection-Resolved rules b c h = record {
    system = Refers-Found _ b.systems c.system_id h.0;
    network = Refers-Found _ b.networks c.network_id h.1.0;
    site = Refers-Found _ b.sites c.site_id h.1.1.0;
    agrees = rw find_system-by_id at h.1.1.1.1;
    one_each = length-parse_messages rules c.records;
  }

  collections-Resolved :
      (rules : List MessageRule) (b : IngestionBundle) (cs : List LogCollection)
      → All (CollectionOk (collect_ids b) b.systems) cs
      → All Resolved (process_collections lib rules b cs).0
  unfolding process_collections
  collections-Resolved rules b [] h = tt
  collections-Resolved rules b (c ∷ cs) h =
      (collection-Resolved rules b c h.0, collections-Resolved rules b cs h.1)

  collections-kept :
      (rules : List MessageRule) (b : IngestionBundle) (cs : List LogCollection)
      → map
          (λ (r : CollectionProcessingResult). r.collection)
          (process_collections lib rules b cs).0
        ≡ cs
  unfolding process_collections process_collection
  collections-kept rules b [] = refl
  collections-kept rules b (c ∷ cs) = ap (◌∷◌ c) (collections-kept rules b cs)

  analyze_all-total :
      (analyzer : ReportAnalyzer) (results : List ParseResult)
      → (reports : List ReportFinding) × (analyze_all lib analyzer results ≡ some reports)
  unfolding analyze_all
  analyze_all-total analyzer results =
      let (xs, e, all) =
        correlate-Correlates (analyze_each lib analyzer.rules results) analyzer.correlation_rules in
      (analyze_each lib analyzer.rules results ++ xs, rw (e, analyze_all) refl)

  report-total :
      (analyzer : Option ReportAnalyzer) (results : List ParseResult)
      → (reports : List ReportFinding) × (report lib analyzer results ≡ some reports)
  unfolding report
  report-total none results = ([], refl)
  report-total (some analyzer) results = analyze_all-total analyzer results

  -- The pipeline never faults. On a bundle that the loader's checks accept it keeps the bundle and its
  -- collections in order, has one parsed result for each record, and finds for each collection the
  -- system, network and site of the ids that it names (an empty id promises nothing); the system
  -- found stands in the collection's own network and site.
  pub process-Resolved :
      (pipeline : IngestionPipeline) (b : IngestionBundle)
      → validate_bundle b ≡ ok tt
      → (r : BundleProcessingResult) × (process lib pipeline b ≡ some r)
        × (r.bundle ≡ b)
        × (map (λ (c : CollectionProcessingResult). c.collection) r.collections ≡ b.collections)
        × All Resolved r.collections
  unfolding process
  process-Resolved pipeline b h =
      let w = (validate_bundle_iff b).0 h in
      let (collections, parsed) = process_collections lib pipeline.framework b b.collections in
      let (reports, e) = report-total pipeline.analyzer parsed in
      (
        record { bundle = b; collections = collections; reports = reports },
        rw e refl,
        refl,
        collections-kept pipeline.framework b b.collections,
        collections-Resolved pipeline.framework b b.collections w.collections_ok,
      )
