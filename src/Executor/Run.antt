-- ===== src/Executor/Run.antt =====
-- `execute_claimed_job`. Between its statements a run alone uses the store.
use foia_search_mcp.Prelude.{
  ℕ, ◌+◌, ◌^◌, String, Option, none, some, List, [], ◌∷◌, ltb, if◌then◌else◌, find, str_eq, Result,
  ok, err, ◌>>=◌, map_err,
}
use foia_search_mcp.Store.{StoreError}
use foia_search_mcp.Jobs.Table.{Jobs, IngestionJobRecord}
use foia_search_mcp.Jobs.Update.{
  mark_ingestion_job_stage, record_ingestion_job_warning, link_ingestion_job_document,
}
use foia_search_mcp.Cache.{CacheRow, policy_text}
use foia_search_mcp.Documents.Tables.{
  AssetRole, AssetInput, Database, TextSource, pdf, html, ocr_text, transcript, image, other,
}
use foia_search_mcp.Documents.Write.{add_asset, has_document_key}
use foia_search_mcp.Download.Types.{
  SourceAsset, SourceAssetRole, AssetDownloadRequest, DownloadedAsset, DownloadError,
}
use foia_search_mcp.Download.Http.{download}
use foia_search_mcp.Extract.FormFeed.{ExtractedText, TextExtraction, cancelled, extract_text_file}
use foia_search_mcp.Extract.Select.{select_pdf_text_with_cancel}
use foia_search_mcp.SourcePlan.Assets.{SourceRecord, PlannedSourceAsset, role_eq}
use foia_search_mcp.SourcePlan.Plan.{SourceIngestionPlan, plan_source_ingestion}
use foia_search_mcp.Ingest.Pipeline.{IngestOutcome, IngestError, extraction, ingest_extracted_text}
use foia_search_mcp.Executor.Types.{
  CancellationCheckpoint, after_source_resolution, after_planning, before_download, after_download,
  before_extraction, during_extraction, before_persistence, before_asset_provenance_write,
  SourceError, ExecutorError, missing_source_adapter, missing_job_locator, asset_size_overflow,
  cancelled_at, ExecutorJobOutcome, SqliteStore, SourceAdapter, marking, loading_cache, warning,
  linking, attaching, ExecutorEnv,
}

-- The store beside what a step of the run answers; `?` ends the run at the first error.
abbrev pub Answer : Type 0 → Type 0
Answer A = SqliteStore × Result ExecutorError A

infixl 5 ◌>>>◌
unfoldable pub ◌>>>◌ : {A B : Type 0} → Answer A → (SqliteStore → A → Answer B) → Answer B
(s, ok a) >>> f = f s a
(s, err e) >>> f = (s, err e)

abbrev pub on_jobs : {A : Type 0} → SqliteStore → Jobs × Result StoreError A → Answer A
on_jobs s answer = (record s { jobs = answer.0 }, map_err ExecutorError.store answer.1)

abbrev pub on_cache : {A : Type 0} → SqliteStore → List CacheRow × Result DownloadError A → Answer A
on_cache s answer = (record s { cache = answer.0 }, map_err ExecutorError.download answer.1)

abbrev pub on_ingest : {A : Type 0} → SqliteStore → Database × Result IngestError A → Answer A
on_ingest s answer = (record s { database = answer.0 }, map_err ExecutorError.ingest answer.1)

abbrev pub on_documents : {A : Type 0} → SqliteStore → Database × Result StoreError A → Answer A
on_documents s answer = (record s { database = answer.0 }, map_err ExecutorError.store answer.1)

abbrev pub found_or {ℓ} : {A : Type ℓ} → ExecutorError → Option A → Result ExecutorError A
found_or e none = err e
found_or e (some a) = ok a

abbrev pub first_of : Option String → Option String → Option String
first_of none o = o
first_of (some a) o = some a

-- `source_id`, or else `target_url`.
abbrev pub locator : IngestionJobRecord → Result ExecutorError String
locator job = found_or (missing_job_locator job.job_key) (first_of job.source_id job.target_url)

abbrev pub asset_role : SourceAssetRole → AssetRole
asset_role SourceAssetRole.pdf = pdf
asset_role SourceAssetRole.html = html
asset_role SourceAssetRole.ocr_text = ocr_text
asset_role SourceAssetRole.transcript = transcript
asset_role SourceAssetRole.image = image
asset_role SourceAssetRole.other = other

abbrev pub asset_size : ℕ → Result ExecutorError ℕ
asset_size size_bytes =
    if ltb size_bytes (2 ^ 63) then ok size_bytes else err (asset_size_overflow size_bytes)

abbrev pub planned_asset_to_source_asset : PlannedSourceAsset → SourceAsset
planned_asset_to_source_asset asset = record {
  asset_url = asset.url;
  label = asset.label;
  mime_type = asset.mime_type;
  role = asset.role;
}

abbrev pub resolve_source_record : SourceAdapter → String → Result SourceError SourceRecord
resolve_source_record adapter id_or_url = adapter.get_record id_or_url >>= λ r.
    adapter.list_assets r >>= λ assets. ok (record r { attachments = assets })

-- A cancelled extraction is the run's cancellation.
abbrev pub extraction_error : TextExtraction → ExecutorError
extraction_error (cancelled binary stderr) = cancelled_at during_extraction
extraction_error e = ExecutorError.ingest (extraction e)

abbrev pub document_id_of : Database → String → Option ℕ
document_id_of db key = elim (find (has_document_key key) db.documents) [
  | none ↦ none
  | some r ↦ some r.id
]

abbrev pub asset_input : String → DownloadedAsset → ℕ → String → AssetInput
asset_input document_key downloaded size now = record {
  document_key = document_key;
  asset_url = downloaded.asset_url;
  mime_type = downloaded.mime_type;
  role = asset_role downloaded.role;
  sha256 = some downloaded.sha256;
  size_bytes = some size;
  etag = downloaded.etag;
  last_modified = downloaded.last_modified;
  fetched_at = some now;
  cache_policy = some (policy_text downloaded.cache_policy);
}

abbrev pub job_outcome : IngestionJobRecord → IngestOutcome → ExecutorJobOutcome
job_outcome job outcome = record {
  job_key = job.job_key;
  document_key = outcome.document_key;
  page_count = outcome.page_count;
  chunk_count = outcome.chunk_count;
  warnings = outcome.warnings;
}

module _ {Url : Type 0} (env : ExecutorEnv Url) where
  abbrev pub source_adapter : String → Result ExecutorError SourceAdapter
  source_adapter name =
      found_or (missing_source_adapter name)
        (find (λ (a : SourceAdapter). str_eq a.name name) env.sources)

  abbrev pub check_cancellation : CancellationCheckpoint → Result ExecutorError (Unit {0})
  check_cancellation checkpoint =
      if env.is_cancelled checkpoint then err (cancelled_at checkpoint) else ok tt

  abbrev pub mark :
      IngestionJobRecord → String → ℕ → String → SqliteStore → Answer IngestionJobRecord
  mark job stage progress note s = on_jobs s (
      mark_ingestion_job_stage job.job_key env.owner stage progress (some note)
        (env.clock (marking stage)) s.jobs)

  -- `for warning in &outcome.warnings`
  unfoldable pub record_warnings :
      IngestionJobRecord → ℕ → List String → SqliteStore → Answer (Unit {0})
  record_warnings job index [] s = (s, ok tt)
  record_warnings job index (w ∷ ws) s =
      on_jobs s
        (record_ingestion_job_warning job.job_key env.owner w (env.clock (warning index)) s.jobs)
      >>> λ s _. record_warnings job (index + 1) ws s

  unfoldable pub resolve_and_plan :
      IngestionJobRecord → SqliteStore → Answer (SourceAdapter × SourceIngestionPlan)
  resolve_and_plan job s = (s, source_adapter job.source) >>> λ s adapter.
      (s, locator job) >>> λ s id_or_url.
      mark job "resolving_source_record" 10 "Resolving source record through configured adapter." s
      >>> λ s _.
          (s, map_err ExecutorError.source (resolve_source_record adapter id_or_url))
          >>> λ s resolved. (s, check_cancellation after_source_resolution) >>> λ s _.
              mark job "planning_ingestion" 20
                "Selecting ingestible asset and building normalized document plan." s
              >>> λ s _.
                  (
                    s,
                    map_err ExecutorError.plan
                        (plan_source_ingestion env.json_text resolved adapter.cache_policy),
                  )
                  >>> λ s plan.
                      (s, check_cancellation after_planning) >>> λ s _. (s, ok (adapter, plan))

  abbrev pub download_request : SourceAdapter → SourceIngestionPlan → AssetDownloadRequest
  download_request adapter plan = record {
    source = adapter.name;
    asset = planned_asset_to_source_asset plan.asset;
    cache_policy = plan.cache_policy;
    redirect_policy = adapter.redirect_policy;
    force = env.force_download;
  }

  unfoldable pub download_planned :
      IngestionJobRecord
      → SourceAdapter
      → SourceIngestionPlan
      → SqliteStore
      → Answer DownloadedAsset
  download_planned job adapter plan s =
      mark job "downloading_asset" 35
        "Downloading selected asset with bounded size and explicit redirect policy." s
      >>> λ s _. (s, check_cancellation before_download) >>> λ s _.
          on_cache s (
            download env.net env.max_bytes (download_request adapter plan) (env.clock loading_cache)
              s.cache)
          >>> λ s downloaded. (s, check_cancellation after_download) >>> λ s _. (s, ok downloaded)

  abbrev pub pdf_text : String → Result ExecutorError (ExtractedText × Option TextSource)
  pdf_text path =
      map_err extraction_error
        (select_pdf_text_with_cancel path env.pdf_extractor env.ocr_extractor env.ocr_policy)
      >>= λ selected. ok (selected.extracted, some selected.text_source)

  abbrev pub file_text : String → Result ExecutorError (ExtractedText × Option TextSource)
  file_text path =
      map_err (λ e. ExecutorError.ingest (extraction e)) (extract_text_file env.read_to_string path)
      >>= λ extracted. ok (extracted, none)

  -- The two branches, for a PDF and for a text, with what they share.
  unfoldable pub extract_and_ingest :
      IngestionJobRecord
      → SourceIngestionPlan
      → DownloadedAsset
      → SqliteStore
      → Answer IngestOutcome
  extract_and_ingest job plan downloaded s =
      mark job "extracting_text" 60 "Extracting page text and building chunks." s >>> λ s _.
      (s, check_cancellation before_extraction) >>> λ s _.
      (
        s,
        if role_eq plan.asset.role SourceAssetRole.pdf
            then pdf_text downloaded.path
            else file_text downloaded.path,
      )
      >>> λ s extracted.
          mark job "persisting_document" 80
            "Persisting normalized document, pages, chunks, and local index rows." s
          >>> λ s _. (s, check_cancellation before_persistence) >>> λ s _. on_ingest s (
              ingest_extracted_text plan.document env.chunk_options extracted.0 extracted.1
                s.database)

  unfoldable pub persist_asset :
      IngestionJobRecord → DownloadedAsset → IngestOutcome → SqliteStore → Answer ExecutorJobOutcome
  unfolding record_warnings
  persist_asset job downloaded outcome s = record_warnings job 0 outcome.warnings s >>> λ s _.
      on_jobs s (
        link_ingestion_job_document (document_id_of s.database) job.job_key env.owner
          outcome.document_key (env.clock linking) s.jobs)
      >>> λ s _.
          mark job "persisting_asset" 90
            "Persisting asset provenance after successful document/page/chunk upsert." s
          >>> λ s _. (s, check_cancellation before_asset_provenance_write) >>> λ s _.
              (s, asset_size downloaded.size_bytes) >>> λ s size.
              on_documents s (
                add_asset (asset_input outcome.document_key downloaded size (env.clock attaching))
                  s.database)
              >>> λ s _. (s, ok (job_outcome job outcome))

  unfoldable pub execute_claimed_job : IngestionJobRecord → SqliteStore → Answer ExecutorJobOutcome
  unfolding resolve_and_plan download_planned extract_and_ingest persist_asset
  execute_claimed_job job s = resolve_and_plan job s >>> λ s planned.
      download_planned job planned.0 planned.1 s >>> λ s downloaded.
      extract_and_ingest job planned.1 downloaded s >>> λ s outcome.
      persist_asset job downloaded outcome s
