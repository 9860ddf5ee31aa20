-- ===== src/Jobs/Table.antt =====
-- The rows of `ingestion_jobs`, what a query reads of one, and the tests of the queries.
use foia_search_mcp.Prelude.{
  ℕ, ◌%◌, ◌^◌, String, Bool, true, false, ◌&&◌, Option, none, some, List, ◌==◌, str_eq, is_text,
  find, Result, ok, err, ◌>>=◌,
}
use foia_search_mcp.Store.{StoreError, missing_ingestion_job, invalid_ingestion_job_state}

pub data Status : Type 0 where
  queued running succeeded failed cancelled interrupted : Status

-- The place of a status in the CHECK constraint's list.
abbrev pub status_code : Status → ℕ
status_code queued = 0
status_code running = 1
status_code succeeded = 2
status_code failed = 3
status_code cancelled = 4
status_code interrupted = 5

abbrev pub status_eq : Status → Status → Bool
status_eq a b = status_code a == status_code b

abbrev pub status_text : Status → String
status_text queued = "queued"
status_text running = "running"
status_text succeeded = "succeeded"
status_text failed = "failed"
status_text cancelled = "cancelled"
status_text interrupted = "interrupted"

pub record JobRow : Type 0 where
  pub id : ℕ
  pub job_key : String
  pub document_id : Option ℕ
  pub source : String
  pub source_id : Option String
  pub target_url : Option String
  pub status : Status
  pub stage : String
  pub progress : ℕ
  pub attempts : ℕ
  pub lease_owner : Option String
  pub lease_expires_at : Option String
  pub error : Option String
  pub warnings : List String
  pub next_action : Option String
  pub updated_at : String

pub record IngestionJobLease : Type 0 where
  pub owner : String
  pub now : String
  pub expires_at : String

pub record IngestionJobRecord : Type 0 where
  pub job_key : String
  pub document_id : Option ℕ
  pub source : String
  pub source_id : Option String
  pub target_url : Option String
  pub status : Status
  pub stage : String
  pub progress : ℕ
  pub attempts : ℕ
  pub lease_owner : Option String
  pub lease_expires_at : Option String
  pub error : Option String
  pub warnings : List String
  pub next_action : Option String

abbrev pub Jobs : Type 0
Jobs = List JobRow

-- `attempts.max(0) as u32`; the column's CHECK keeps it from being negative.
abbrev pub read_ingestion_job_record : JobRow → IngestionJobRecord
read_ingestion_job_record r = record {
  job_key = r.job_key;
  document_id = r.document_id;
  source = r.source;
  source_id = r.source_id;
  target_url = r.target_url;
  status = r.status;
  stage = r.stage;
  progress = r.progress;
  attempts = r.attempts % 2 ^ 32;
  lease_owner = r.lease_owner;
  lease_expires_at = r.lease_expires_at;
  error = r.error;
  warnings = r.warnings;
  next_action = r.next_action;
}

-- WHERE job_key = ?
abbrev pub select_job : String → Jobs → Option JobRow
select_job k t = find (λ r. str_eq r.job_key k) t

-- status = 'running' AND lease_owner = ?
abbrev pub held_by : String → JobRow → Bool
held_by o r = status_eq r.status running && is_text r.lease_owner o

-- job_key = ? AND status = 'running' AND lease_owner = ?
abbrev pub held_job : String → String → JobRow → Bool
held_job k o r = str_eq r.job_key k && held_by o r

unfoldable pub get_ingestion_job_record : String → Jobs → Result StoreError IngestionJobRecord
get_ingestion_job_record k t = elim (select_job k t) [
  | none ↦ err (missing_ingestion_job k)
  | some r ↦ ok (read_ingestion_job_record r)
]

unfoldable pub require_updated_running_job :
    String → String → Jobs → Result StoreError IngestionJobRecord
unfolding get_ingestion_job_record
require_updated_running_job k o t = do
  job ← get_ingestion_job_record k t
  elim (status_eq job.status running && is_text job.lease_owner o) [
    | true ↦ ok job
    | false ↦
        err (invalid_ingestion_job_state job.job_key "job is not running under the requested lease")
  ]
