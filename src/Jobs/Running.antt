-- ===== src/Jobs/Running.antt =====
-- What the checks that a job runs under a lease return.
use foia_search_mcp.Prelude.{
  String, true, some, ◌≡◌, ◌⊎◌, inl, inr, arith, Bool-cases, Option-cases, ok, err,
}
use foia_search_mcp.Store.{StoreError, missing_ingestion_job, invalid_ingestion_job_state}
use foia_search_mcp.Jobs.Table.{
  JobRow, Jobs, held_by, select_job, get_ingestion_job_record, require_updated_running_job,
  read_ingestion_job_record,
}

pub require_cases :
    (k o : String) (t : Jobs)
    → ((r : JobRow) × (select_job k t ≡ some r)
        × (held_by o r ≡ true)
        × (require_updated_running_job k o t ≡ ok (read_ingestion_job_record r)))
      ⊎ ((e : StoreError) × (require_updated_running_job k o t ≡ err e))
unfolding require_updated_running_job get_ingestion_job_record
require_cases k o t = elim (Option-cases (select_job k t)) [
  | inl got ↦ inr (missing_ingestion_job k, ground arith)
  | inr (r, got) ↦ elim (Bool-cases (held_by o r)) [
    | inl held ↦ inl (r, got, held, ground arith)
    | inr lost ↦ inr (
      invalid_ingestion_job_state r.job_key "job is not running under the requested lease",
      ground arith,
    )
  ]
]

-- A row that is found and held passes the check.
pub require-ok :
    (k o : String) (t : Jobs) (r : JobRow)
    → select_job k t ≡ some r
    → held_by o r ≡ true
    → require_updated_running_job k o t ≡ ok (read_ingestion_job_record r)
unfolding require_updated_running_job get_ingestion_job_record
require-ok k o t r got held = ground arith
