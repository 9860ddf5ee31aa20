-- ===== src/Jobs/Create.antt =====
-- src/store/sqlite.rs, `create_ingestion_job`: the job and its outbox message in one transaction.
use foia_search_mcp.Prelude.{
  ℕ, suc, max, String, Option, none, some, List, [], ◌∷◌, ◌++◌, str_eq, any, if◌then◌else◌, Result,
  ok, err,
}
use foia_search_mcp.Store.{StoreError, missing_ingestion_job}
use foia_search_mcp.Jobs.Table.{Status, queued, JobRow, Jobs, select_job}

pub record NewIngestionJob : Type 0 where
  pub job_key : String
  pub operation : String
  pub source : String
  pub source_id : Option String
  pub target_url : Option String
  pub next_action : String

pub record StoredIngestionJob : Type 0 where
  pub job_key : String
  pub source : String
  pub source_id : Option String
  pub target_url : Option String
  pub status : Status
  pub stage : String
  pub progress : ℕ
  pub error : Option String
  pub warnings : List String
  pub next_action : Option String

abbrev pub read_ingestion_job : JobRow → StoredIngestionJob
read_ingestion_job r = record {
  job_key = r.job_key;
  source = r.source;
  source_id = r.source_id;
  target_url = r.target_url;
  status = r.status;
  stage = r.stage;
  progress = r.progress;
  error = r.error;
  warnings = r.warnings;
  next_action = r.next_action;
}

unfoldable pub get_ingestion_job_by_key : String → Jobs → Result StoreError StoredIngestionJob
get_ingestion_job_by_key k t = elim (select_job k t) [
  | none ↦ err (missing_ingestion_job k)
  | some r ↦ ok (read_ingestion_job r)
]

-- A message with the fields of its JSON payload.
pub record OutboxRow : Type 0 where
  pub topic : String
  pub job_key : String
  pub operation : String
  pub source : String
  pub source_id : Option String
  pub target_url : Option String

pub record JobQueue : Type 0 where
  pub jobs : Jobs
  pub outbox : List OutboxRow

-- The AUTOINCREMENT id; no statement of the program deletes a job.
abbrev pub next_id : Jobs → ℕ
next_id [] = 1
next_id (r ∷ t) = max (suc r.id) (next_id t)

abbrev pub queued_row : NewIngestionJob → ℕ → String → JobRow
queued_row job id now = record {
  id = id;
  job_key = job.job_key;
  document_id = none;
  source = job.source;
  source_id = job.source_id;
  target_url = job.target_url;
  status = queued;
  stage = "queued";
  progress = 0;
  attempts = 0;
  lease_owner = none;
  lease_expires_at = none;
  error = none;
  warnings = [];
  next_action = some job.next_action;
  updated_at = now;
}

abbrev pub queued_message : NewIngestionJob → OutboxRow
queued_message job = record {
  topic = "ingestion.job.queued";
  job_key = job.job_key;
  operation = job.operation;
  source = job.source;
  source_id = job.source_id;
  target_url = job.target_url;
}

-- INSERT OR IGNORE meets the UNIQUE constraint on `job_key` alone: `id` is fresh.
unfoldable pub create_ingestion_job :
    NewIngestionJob → String → JobQueue → JobQueue × Result StoreError StoredIngestionJob
unfolding get_ingestion_job_by_key
create_ingestion_job job now q =
    let known = any (λ (r : JobRow). str_eq r.job_key job.job_key) q.jobs in
    let q' = if known then q else record {
      jobs = q.jobs ++ queued_row job (next_id q.jobs) now ∷ [];
      outbox = q.outbox ++ queued_message job ∷ [];
    } in
    (q', get_ingestion_job_by_key job.job_key q'.jobs)
