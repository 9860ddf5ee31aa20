-- ===== src/Executor/Examples.antt =====
-- A worker that ingests one text file, and the same worker when it is cancelled before it writes.
use foia_search_mcp.Prelude.{
  Bool, true, false, none, some, [], ◌∷◌, ◌≡◌, refl, codes, Chars, ok, err, trim, trim_start,
  trim_end, is_whitespace, count_words, decimal, digits, digit, pad4,
}
use foia_search_mcp.Jobs.Table.{
  JobRow, queued, get_ingestion_job_record, require_updated_running_job,
}
use foia_search_mcp.Jobs.Claim.{claim_next_ingestion_job, next_claimable}
use foia_search_mcp.Jobs.Update.{
  mark_ingestion_job_stage, record_ingestion_job_warning, link_ingestion_job_document,
  finish_ingestion_job, complete_ingestion_job, validate_progress,
}
use foia_search_mcp.Cache.{respect_source_headers, put, get, policy_text, policy_from_text}
use foia_search_mcp.Documents.Tables.{
  is_document_key_safe, document_key_new, ensure_json_object, ensure_json_array,
}
use foia_search_mcp.Documents.Write.{
  upsert_document, checked_document, write_document, get_document_by_key, replace_pages_and_chunks,
  replace_in, insert_pages, insert_page, insert_chunks, insert_chunk, add_asset,
}
use foia_search_mcp.Chunk.Pages.{
  default_options, chunk_pages, chunk_loop, build_chunk, estimate_tokens,
}
use foia_search_mcp.Redirect.Validate.{deny}
use foia_search_mcp.Redirect.Follow.{send_with_redirects, hop_loop}
use foia_search_mcp.Download.Types.{SourceAsset, ocr_text}
use foia_search_mcp.Download.Persist.{
  load_cached_entry, persist_download, build_fetched_download, effective_cache_policy,
}
use foia_search_mcp.Download.Http.{
  cache_key, validate_asset_url, read_bounded, fetch_body, receive_response, download_http,
  download,
}
use foia_search_mcp.Download.Examples.{before}
use foia_search_mcp.Extract.FormFeed.{
  empty_input, normalize_page_text, embedded_text_quality_warnings, extracted_text_from_form_feed,
}
use foia_search_mcp.Extract.Select.{off}
use foia_search_mcp.SourcePlan.Assets.{
  SourceRecord, select_asset, is_pdf_asset, fallback_pdf_asset, find_role_asset, has_role,
  find_plain_text_asset, is_text_file, is_plain_text_asset, url_without_query,
  text_source_for_asset, is_tei_asset,
}
use foia_search_mcp.SourcePlan.Plan.{plan_source_ingestion}
use foia_search_mcp.Ingest.Pipeline.{ingest_extracted_text, prepare, chunk_inputs}
use foia_search_mcp.Executor.Types.{
  CancellationCheckpoint, before_persistence, cancelled_at, SqliteStore, SourceAdapter, ExecutorEnv,
}
use foia_search_mcp.Executor.Run.{
  ◌>>>◌, record_warnings, resolve_and_plan, download_planned, extract_and_ingest, persist_asset,
  execute_claimed_job,
}
use foia_search_mcp.Executor.Next.{end_failed, conclude, run_claimed, run_next_with_ocr_and_cancel}
use foia_search_mcp.Executor.Ends.{IsExecution, run_next-IsExecution}

abbrev transcript_asset : SourceAsset
transcript_asset = record {
  asset_url = codes "example.test/a.txt";
  label = "text";
  mime_type = none;
  role = ocr_text;
}

abbrev source_record : SourceRecord
source_record = record {
  id = "cia:A";
  document_key = "cia_A";
  source = "cia";
  source_id = "A";
  title = "Report";
  date = none;
  collection = none;
  record_group = none;
  description = none;
  origin_url = "https://example.test/a";
  document_url = "https://example.test/a";
  pdf_url = none;
  metadata = [];
  attachments = [];
  citation_note = none;
  terms_note = none;
}

abbrev cia : SourceAdapter
cia = record {
  name = "cia";
  get_record = λ id_or_url. ok source_record;
  list_assets = λ r. ok (transcript_asset ∷ []);
  cache_policy = respect_source_headers;
  redirect_policy = deny;
}

abbrev pub worker : ExecutorEnv Chars
worker = record {
  owner = "worker";
  expires_at = "t9";
  sources = cia ∷ [];
  net = before;
  max_bytes = 10;
  chunk_options = default_options;
  force_download = false;
  ocr_policy = off;
  pdf_extractor = λ path. err empty_input;
  ocr_extractor = λ path. err empty_input;
  is_cancelled = λ checkpoint. false;
  clock = λ moment. "t1";
  read_to_string = λ path. ok (codes "one two");
  json_text = λ value. codes "{}";
  display = record {
    store_text = λ e. "store";
    source_text = λ e. "source";
    plan_text = λ e. "plan";
    download_text = λ e. "download";
    ingest_text = λ e. "ingest";
  };
}

abbrev is_late : CancellationCheckpoint → Bool
is_late before_persistence = true
is_late checkpoint = false

abbrev stopping_worker : ExecutorEnv Chars
stopping_worker = record worker { is_cancelled = is_late }

abbrev queued_job : JobRow
queued_job = record {
  id = 1;
  job_key = "ingest:cia:A";
  document_id = none;
  source = "cia";
  source_id = some "A";
  target_url = none;
  status = queued;
  stage = "queued";
  progress = 0;
  attempts = 0;
  lease_owner = none;
  lease_expires_at = none;
  error = none;
  warnings = [];
  next_action = none;
  updated_at = "t0";
}

abbrev one_job : SqliteStore
one_job = record {
  jobs = queued_job ∷ [];
  cache = [];
  database = record { documents = []; pages = []; chunks = []; chunk_fts = []; assets = [] };
}

run_next-IsExecution_example :
    IsExecution worker one_job (run_next_with_ocr_and_cancel worker one_job)
run_next-IsExecution_example = run_next-IsExecution worker one_job (tt, tt) (tt, tt)

cancelled_run :
    (run_next_with_ocr_and_cancel stopping_worker one_job).1 ≡ err (cancelled_at before_persistence)
unfolding run_next_with_ocr_and_cancel run_claimed conclude end_failed execute_claimed_job
    resolve_and_plan download_planned extract_and_ingest ◌>>>◌ claim_next_ingestion_job
    next_claimable mark_ingestion_job_stage validate_progress require_updated_running_job
    get_ingestion_job_record plan_source_ingestion select_asset is_pdf_asset fallback_pdf_asset
    find_role_asset has_role url_without_query text_source_for_asset is_tei_asset
    is_plain_text_asset find_plain_text_asset is_text_file document_key_new is_document_key_safe
    trim trim_start trim_end is_whitespace download download_http validate_asset_url cache_key
    send_with_redirects hop_loop receive_response fetch_body read_bounded build_fetched_download
    effective_cache_policy load_cached_entry persist_download get put policy_text policy_from_text
    extracted_text_from_form_feed normalize_page_text embedded_text_quality_warnings digits digit
    decimal
cancelled_run = refl

first_run :
    (run_next_with_ocr_and_cancel worker one_job).1
    ≡ ok (
        some (record {
          job_key = "ingest:cia:A";
          document_key = "cia_A";
          page_count = 1;
          chunk_count = 1;
          warnings =
              "embedded PDF text has low density (6 visible chars/page); OCR fallback may improve quality"
              ∷ [];
        }))
unfolding run_next_with_ocr_and_cancel run_claimed conclude execute_claimed_job resolve_and_plan
    download_planned extract_and_ingest persist_asset record_warnings ◌>>>◌ claim_next_ingestion_job
    next_claimable mark_ingestion_job_stage record_ingestion_job_warning link_ingestion_job_document
    complete_ingestion_job finish_ingestion_job validate_progress require_updated_running_job
    get_ingestion_job_record plan_source_ingestion select_asset is_pdf_asset fallback_pdf_asset
    find_role_asset has_role url_without_query text_source_for_asset is_tei_asset
    is_plain_text_asset find_plain_text_asset is_text_file document_key_new is_document_key_safe
    trim trim_start trim_end is_whitespace download download_http validate_asset_url cache_key
    send_with_redirects hop_loop receive_response fetch_body read_bounded build_fetched_download
    effective_cache_policy load_cached_entry persist_download get put policy_text policy_from_text
    extracted_text_from_form_feed normalize_page_text embedded_text_quality_warnings digits digit
    decimal ingest_extracted_text prepare chunk_inputs chunk_pages chunk_loop build_chunk
    estimate_tokens count_words pad4 upsert_document checked_document write_document
    get_document_by_key replace_pages_and_chunks replace_in insert_pages insert_page insert_chunks
    insert_chunk ensure_json_object ensure_json_array add_asset
first_run = refl
