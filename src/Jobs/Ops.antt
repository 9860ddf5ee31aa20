-- ===== src/Jobs/Ops.antt =====
-- The operations of the queue as one type of commands, which any worker may issue at any time.
use foia_search_mcp.Prelude.{ℕ, String, Option, none, some}
use foia_search_mcp.Jobs.Table.{IngestionJobLease, Jobs}
use foia_search_mcp.Jobs.Claim.{claim_next_ingestion_job, claim_ingestion_job}
use foia_search_mcp.Jobs.Update.{
  mark_ingestion_job_stage, record_ingestion_job_warning, record_ingestion_job_error,
  link_ingestion_job_document, complete_ingestion_job, fail_ingestion_job, interrupt_ingestion_job,
}
use foia_search_mcp.Jobs.Create.{NewIngestionJob, JobQueue, create_ingestion_job}

-- What a worker `owner` asks for under its lease of the job `k`, at the time `now`.
pub data Update : Type 0 where
  mark_stage : String → ℕ → Option String → Update
  record_warning : String → Update
  record_error : String → Update
  link_document : (String → Option ℕ) → String → Update
  complete : Update
  fail : String → Option String → Update
  interrupt : Option String → Option String → Update

pub data Op : Type 0 where
  create : NewIngestionJob → String → Op
  claim_next : IngestionJobLease → Op
  claim : String → IngestionJobLease → Op
  update : String → String → String → Update → Op

unfoldable pub run_update : String → String → String → Update → Jobs → Jobs
unfolding mark_ingestion_job_stage record_ingestion_job_warning record_ingestion_job_error
    link_ingestion_job_document complete_ingestion_job fail_ingestion_job interrupt_ingestion_job
run_update k o now (mark_stage stage p next) t = (mark_ingestion_job_stage k o stage p next now t).0
run_update k o now (record_warning w) t = (record_ingestion_job_warning k o w now t).0
run_update k o now (record_error e) t = (record_ingestion_job_error k o e now t).0
run_update k o now (link_document documents key) t =
    (link_ingestion_job_document documents k o key now t).0
run_update k o now complete t = (complete_ingestion_job k o now t).0
run_update k o now (fail e next) t = (fail_ingestion_job k o e next now t).0
run_update k o now (interrupt e next) t = (interrupt_ingestion_job k o e next now t).0

unfoldable pub run_op : Op → JobQueue → JobQueue
unfolding run_update claim_next_ingestion_job claim_ingestion_job create_ingestion_job
run_op (create job now) q = (create_ingestion_job job now q).0
run_op (claim_next lease) q = record q { jobs = (claim_next_ingestion_job lease q.jobs).0 }
run_op (claim k lease) q = record q { jobs = (claim_ingestion_job k lease q.jobs).0 }
run_op (update k o now u) q = record q { jobs = run_update k o now u q.jobs }

-- Who issues the command; nobody's lease is needed to create a job.
abbrev pub op_owner : Op → Option String
op_owner (create job now) = none
op_owner (claim_next lease) = some lease.owner
op_owner (claim k lease) = some lease.owner
op_owner (update k o now u) = some o

abbrev pub op_now : Op → String
op_now (create job now) = now
op_now (claim_next lease) = lease.now
op_now (claim k lease) = lease.now
op_now (update k o now u) = now
