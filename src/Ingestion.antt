-- ===== src/Ingestion.antt =====
-- The data of include/parser_framework/IngestionBundle.hpp.
pub mod Loader
pub mod Validation
pub mod Meaning
pub mod WellFormed
pub mod Loaded
use parser_framework.Base.{List, [], Str}

pub record Attribution : Type 0 where
  pub owner_org_ids : List Str
  pub operator_org_ids : List Str
  pub tenant_org_ids : List Str
  pub provider_org_ids : List Str

abbrev pub no_attribution : Attribution
no_attribution = record {
  owner_org_ids = [];
  operator_org_ids = [];
  tenant_org_ids = [];
  provider_org_ids = [];
}

pub record ProducerMetadata : Type 0 where
  pub component_id : Str
  pub component_type : Str
  pub organisation_id : Str
  pub region : Str

pub record StorageHint : Type 0 where
  pub backend : Str
  pub database : Str
  pub bundle_collection : Str
  pub result_collection : Str

pub record OrganizationMetadata : Type 0 where
  pub id : Str
  pub name : Str
  pub kind : Str
  pub tags : List Str

pub record SiteMetadata : Type 0 where
  pub id : Str
  pub name : Str
  pub country_code : Str
  pub region : Str
  pub city : Str
  pub timezone : Str

pub record NetworkMetadata : Type 0 where
  pub id : Str
  pub name : Str
  pub kind : Str
  pub environment : Str
  pub site_id : Str
  pub attribution : Attribution
  pub tags : List Str

pub record SystemMetadata : Type 0 where
  pub id : Str
  pub name : Str
  pub kind : Str
  pub vendor : Str
  pub product : Str
  pub deployment_model : Str
  pub network_id : Str
  pub site_id : Str
  pub attribution : Attribution
  pub tags : List Str

pub record LogCollection : Type 0 where
  pub id : Str
  pub name : Str
  pub system_id : Str
  pub network_id : Str
  pub site_id : Str
  pub log_type : Str
  pub format : Str
  pub classification : Str
  pub observed_start : Str
  pub observed_end : Str
  pub attribution : Attribution
  pub tags : List Str
  pub records : List Str

pub record IngestionBundle : Type 0 where
  pub schema_version : Str
  pub bundle_id : Str
  pub produced_at : Str
  pub producer : ProducerMetadata
  pub storage : StorageHint
  pub organizations : List OrganizationMetadata
  pub sites : List SiteMetadata
  pub networks : List NetworkMetadata
  pub systems : List SystemMetadata
  pub collections : List LogCollection
