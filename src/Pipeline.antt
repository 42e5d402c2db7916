-- ===== src/Pipeline.antt =====
-- `IngestionPipeline` of src/IngestionPipeline.cpp; Render/Processing has its rendering.
pub mod Resolve
use parser_framework.Base.{List, [], ◌∷◌, ◌++◌, Option, none, some, if◌then◌else◌, Str, str_eq}
use parser_framework.Framework.{parse_messages}
use parser_framework.Ingestion.{
  SiteMetadata, NetworkMetadata, SystemMetadata, LogCollection, IngestionBundle,
}
use parser_framework.Libraries.{Libraries}
use parser_framework.Report.Types.{ReportFinding}
use parser_framework.Report.{ReportAnalyzer, analyze_all}
use parser_framework.Types.{ParseResult, MessageRule}

pub record CollectionProcessingResult : Type 0 where
  pub collection : LogCollection
  pub system : Option SystemMetadata
  pub network : Option NetworkMetadata
  pub site : Option SiteMetadata
  pub parsed : List ParseResult

pub record BundleProcessingResult : Type 0 where
  pub bundle : IngestionBundle
  pub collections : List CollectionProcessingResult
  pub reports : List ReportFinding

-- A `ParserFramework` is its message rules.
pub record IngestionPipeline : Type 0 where
  pub framework : List MessageRule
  pub analyzer : Option ReportAnalyzer

-- `find_by_id`, where `id` reads an entry's id.
unfoldable pub find_by_id : {A : Type 0} → (A → Str) → List A → Str → Option A
find_by_id id [] wanted = none
find_by_id id (entry ∷ rest) wanted =
    if str_eq (id entry) wanted then some entry else find_by_id id rest wanted

module _ (lib : Libraries) where
  -- One round of the loop over `bundle.collections`.
  unfoldable pub process_collection :
      List MessageRule → IngestionBundle → LogCollection → CollectionProcessingResult
  unfolding find_by_id
  process_collection framework bundle collection = record {
    collection = collection;
    system = find_by_id (λ (s : SystemMetadata). s.id) bundle.systems collection.system_id;
    network = find_by_id (λ (n : NetworkMetadata). n.id) bundle.networks collection.network_id;
    site = find_by_id (λ (s : SiteMetadata). s.id) bundle.sites collection.site_id;
    parsed = parse_messages lib framework collection.records;
  }

  -- The results of the collections, and `all_parsed`.
  unfoldable pub process_collections :
      List MessageRule
      → IngestionBundle
      → List LogCollection
      → List CollectionProcessingResult × List ParseResult
  unfolding process_collection
  process_collections framework bundle [] = ([], [])
  process_collections framework bundle (collection ∷ rest) =
      let result = process_collection framework bundle collection in
      let (results, parsed) = process_collections framework bundle rest in
      (result ∷ results, result.parsed ++ parsed)

  -- `if (m_analyzer.has_value()) result.reports = m_analyzer->analyze(all_parsed);`
  unfoldable pub report : Option ReportAnalyzer → List ParseResult → Option (List ReportFinding)
  report none all_parsed = some []
  report (some analyzer) all_parsed = analyze_all lib analyzer all_parsed

  abbrev pub finish :
      IngestionBundle
      → List CollectionProcessingResult
      → Option (List ReportFinding)
      → Option BundleProcessingResult
  finish bundle collections none = none
  finish bundle collections (some reports) =
      some (record { bundle = bundle; collections = collections; reports = reports })

  -- `none` is a fault of the correlation.
  unfoldable pub process : IngestionPipeline → IngestionBundle → Option BundleProcessingResult
  unfolding process_collections report
  process pipeline bundle =
      let (collections, all_parsed) =
        process_collections pipeline.framework bundle bundle.collections in
      finish bundle collections (report pipeline.analyzer all_parsed)
