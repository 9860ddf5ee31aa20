-- ===== src/Executor/Types.antt =====
-- The checkpoints of a cancellation, errors, the store, and the outside world of a run.
use foia_search_mcp.Prelude.{ℕ, String, Bool, Option, List, [], ◌∷◌, format, decimal, Chars, Result}
use foia_search_mcp.Store.{StoreError}
use foia_search_mcp.Jobs.Table.{Jobs}
use foia_search_mcp.Cache.{CachePolicy, CacheRow}
use foia_search_mcp.Documents.Tables.{Database}
use foia_search_mcp.Chunk.Pages.{ChunkOptions}
use foia_search_mcp.Redirect.Validate.{RedirectPolicy}
use foia_search_mcp.Download.Types.{SourceAsset, DownloadEnv, DownloadError}
use foia_search_mcp.Extract.FormFeed.{ExtractedText, TextExtraction}
use foia_search_mcp.Extract.Select.{OcrFallbackPolicy}
use foia_search_mcp.SourcePlan.Assets.{SourceRecord, SourcePlanError}
use foia_search_mcp.SourcePlan.Plan.{PlanJson}
use foia_search_mcp.Ingest.Pipeline.{IngestError}

pub data CancellationCheckpoint : Type 0 where
  after_claim after_source_resolution after_planning before_download : CancellationCheckpoint
  after_download before_extraction during_extraction : CancellationCheckpoint
  before_persistence before_asset_provenance_write : CancellationCheckpoint

abbrev pub checkpoint_text : CancellationCheckpoint → String
checkpoint_text after_claim = "after claim"
checkpoint_text after_source_resolution = "after source resolution"
checkpoint_text after_planning = "after planning"
checkpoint_text before_download = "before download"
checkpoint_text after_download = "after download"
checkpoint_text before_extraction = "before extraction"
checkpoint_text during_extraction = "during extraction"
checkpoint_text before_persistence = "before persistence"
checkpoint_text before_asset_provenance_write = "before final asset provenance write"

abbrev pub next_action : CancellationCheckpoint → String
next_action after_claim =
    "Shutdown interrupted this job immediately after claim; resume by reclaiming the job."
next_action after_source_resolution =
    "Shutdown interrupted this job after source resolution; resume by reclaiming the job."
next_action after_planning =
    "Shutdown interrupted this job after planning; resume by reclaiming the job."
next_action before_download =
    "Shutdown interrupted this job before asset download; resume by reclaiming the job."
next_action after_download =
    "Shutdown interrupted this job after download; resume by reclaiming the job."
next_action before_extraction =
    "Shutdown interrupted this job before extraction; resume by reclaiming the job."
next_action during_extraction =
    "Shutdown interrupted this job during extraction; resume by reclaiming the job."
next_action before_persistence =
    "Shutdown interrupted this job before persistence; resume by reclaiming the job."
next_action before_asset_provenance_write =
    "Shutdown interrupted this job before final asset provenance write; resume by reclaiming the job."

pub data SourceError : Type 0 where
  invalid_input : (source message : String) → Option String → SourceError
  source_changed : (source message : String) → Option String → SourceError
  fetch : (source message : String) → Option String → SourceError

pub data ExecutorError : Type 0 where
  store : StoreError → ExecutorError
  missing_source_adapter : (source : String) → ExecutorError
  missing_job_locator : (job_key : String) → ExecutorError
  source : SourceError → ExecutorError
  plan : SourcePlanError → ExecutorError
  download : DownloadError → ExecutorError
  ingest : IngestError → ExecutorError
  asset_size_overflow : ℕ → ExecutorError
  cancelled_at : CancellationCheckpoint → ExecutorError

pub record ExecutorJobOutcome : Type 0 where
  pub job_key : String
  pub document_key : String
  pub page_count : ℕ
  pub chunk_count : ℕ
  pub warnings : List String

-- The tables of the one SQLite file.
pub record SqliteStore : Type 0 where
  pub jobs : Jobs
  pub cache : List CacheRow
  pub database : Database

-- The trait `SourceAdapter`: what a source answers.
pub record SourceAdapter : Type 0 where
  pub name : String
  pub get_record : String → Result SourceError SourceRecord
  pub list_assets : SourceRecord → Result SourceError (List SourceAsset)
  pub cache_policy : CachePolicy
  pub redirect_policy : RedirectPolicy

-- Where the clock is read: a text of the time for each.
pub data Moment : Type 0 where
  claiming : Moment
  marking : (stage : String) → Moment
  loading_cache : Moment
  warning : (index : ℕ) → Moment
  linking : Moment
  attaching : Moment
  finishing : Moment

-- The texts of the errors of the other components.
pub record Display : Type 0 where
  pub store_text : StoreError → String
  pub source_text : SourceError → String
  pub plan_text : SourcePlanError → String
  pub download_text : DownloadError → String
  pub ingest_text : IngestError → String

-- The fields of `QueuedIngestionExecutor`, the extractors, the signal of cancellation as it is when
-- each checkpoint asks it, the clock, the files, and the network in `net`.
pub record ExecutorEnv (Url : Type 0) : Type 0 where
  pub owner : String
  pub expires_at : String
  pub sources : List SourceAdapter
  pub net : DownloadEnv Url
  pub max_bytes : ℕ
  pub chunk_options : ChunkOptions
  pub force_download : Bool
  pub ocr_policy : OcrFallbackPolicy
  pub pdf_extractor : String → Result TextExtraction ExtractedText
  pub ocr_extractor : String → Result TextExtraction ExtractedText
  pub is_cancelled : CancellationCheckpoint → Bool
  pub clock : Moment → String
  pub read_to_string : String → Result String Chars
  pub json_text : PlanJson → Chars
  pub display : Display

abbrev pub error_text : Display → ExecutorError → String
error_text d (store e) = d.store_text e
error_text d (missing_source_adapter name) =
    format ("no source adapter registered for queued source " ∷ name ∷ [])
error_text d (missing_job_locator job_key) =
    format ("queued ingestion job " ∷ job_key ∷ " has no source_id or target_url" ∷ [])
error_text d (source e) = d.source_text e
error_text d (plan e) = d.plan_text e
error_text d (download e) = d.download_text e
error_text d (ingest e) = d.ingest_text e
error_text d (asset_size_overflow size_bytes) =
    format ("downloaded asset size does not fit SQLite integer: " ∷ decimal size_bytes ∷ [])
error_text d (cancelled_at checkpoint) =
    format ("ingestion cancelled " ∷ checkpoint_text checkpoint ∷ [])
