-- ===== src/SourcePlan/Plan.antt =====
-- `plan_source_ingestion`. The JSON library's text of the plan's metadata is an operation.
use foia_search_mcp.Prelude.{
  String, Option, some, List, map, if◌then◌else◌, Chars, Result, ok, ◌>>=◌, map_err,
}
use foia_search_mcp.Cache.{CachePolicy, policy_text}
use foia_search_mcp.Documents.Tables.{document_key_new, source_text}
use foia_search_mcp.Download.Types.{pdf}
use foia_search_mcp.Ingest.Pipeline.{IngestDocument}
use foia_search_mcp.SourcePlan.Assets.{
  SourceRecord, PlannedSourceAsset, SourcePlanError, unsafe_document_key, role_eq, asset_role_name,
  select_asset,
}

pub record SourcePlanMetadata : Type 0 where
  pub source : String
  pub source_id : String
  pub cache_policy : String
  pub selected_asset_role : String
  pub source_metadata_keys : List String

pub record SourceIngestionPlan : Type 0 where
  pub document : IngestDocument
  pub asset : PlannedSourceAsset
  pub cache_policy : CachePolicy
  pub metadata : SourcePlanMetadata

-- The value that `json!` builds.
pub record PlanJson : Type 0 where
  pub plan : SourcePlanMetadata
  pub url : Chars
  pub label : String
  pub mime_type : Option Chars
  pub text_source : String
  pub source_metadata : List (String × String)

abbrev pub plan_metadata_json : SourcePlanMetadata → SourceRecord → PlannedSourceAsset → PlanJson
plan_metadata_json metadata r asset = record {
  plan = metadata;
  url = asset.url;
  label = asset.label;
  mime_type = asset.mime_type;
  text_source = source_text asset.text_source;
  source_metadata = r.metadata;
}

abbrev pub pdf_url_for_document : SourceRecord → PlannedSourceAsset → Option Chars
pdf_url_for_document r asset = if role_eq asset.role pdf then some asset.url else r.pdf_url

abbrev pub metadata_of : SourceRecord → CachePolicy → PlannedSourceAsset → SourcePlanMetadata
metadata_of r cache_policy asset = record {
  source = r.source;
  source_id = r.source_id;
  cache_policy = policy_text cache_policy;
  selected_asset_role = asset_role_name asset.role;
  source_metadata_keys = map (λ (entry : String × String). entry.0) r.metadata;
}

abbrev pub document_of :
    (PlanJson → Chars) → SourceRecord → CachePolicy → PlannedSourceAsset → IngestDocument
document_of json_text r cache_policy asset = record {
  public_id = r.id;
  document_key = r.document_key;
  source = r.source;
  source_id = r.source_id;
  title = r.title;
  date = r.date;
  collection = r.collection;
  record_group = r.record_group;
  description = r.description;
  origin_url = some r.origin_url;
  document_url = some r.document_url;
  pdf_url = pdf_url_for_document r asset;
  metadata_json = json_text (plan_metadata_json (metadata_of r cache_policy asset) r asset);
  citation_note = r.citation_note;
  terms_note = r.terms_note;
  text_source = asset.text_source;
}

unfoldable pub plan_source_ingestion :
    (PlanJson → Chars) → SourceRecord → CachePolicy → Result SourcePlanError SourceIngestionPlan
unfolding select_asset document_key_new
plan_source_ingestion json_text r cache_policy = select_asset r >>= λ asset.
    map_err (unsafe_document_key r.source r.source_id r.document_key)
      (document_key_new r.document_key)
    >>= λ document_key. ok (record {
      document = record (document_of json_text r cache_policy asset) {
        document_key = document_key;
      };
      asset = asset;
      cache_policy = cache_policy;
      metadata = metadata_of r cache_policy asset;
    })
