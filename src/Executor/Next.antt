-- ===== src/Executor/Next.antt =====
-- `run_next_with_ocr_and_cancel`: the claim, the run, and the end of the job.
use foia_search_mcp.Prelude.{
  String, Option, none, some, [], ◌∷◌, format, Result, ok, err, ◌>>=◌, map_err,
}
use foia_search_mcp.Store.{StoreError}
use foia_search_mcp.Jobs.Table.{Jobs, IngestionJobLease, IngestionJobRecord}
use foia_search_mcp.Jobs.Claim.{claim_next_ingestion_job}
use foia_search_mcp.Jobs.Update.{
  complete_ingestion_job, fail_ingestion_job, interrupt_ingestion_job,
}
use foia_search_mcp.Documents.Tables.{}
use foia_search_mcp.Download.Types.{}
use foia_search_mcp.Executor.Types.{
  CancellationCheckpoint, after_claim, checkpoint_text, next_action, ExecutorError, cancelled_at,
  ExecutorJobOutcome, SqliteStore, claiming, finishing, ExecutorEnv, error_text,
}
use foia_search_mcp.Executor.Run.{Answer, ◌>>>◌, check_cancellation, execute_claimed_job}

module _ {Url : Type 0} (env : ExecutorEnv Url) where
  abbrev pub lease : IngestionJobLease
  lease = record { owner = env.owner; now = env.clock claiming; expires_at = env.expires_at }

  abbrev pub cancelled_text : CancellationCheckpoint → String
  cancelled_text checkpoint =
      format ("ingestion interrupted by cancellation " ∷ checkpoint_text checkpoint ∷ [])

  abbrev pub failed_action : String
  failed_action =
      "Ingestion failed deterministically; inspect error, fix source or extractor configuration, then requeue or refresh."

  abbrev pub completed_or :
      SqliteStore
      → ExecutorJobOutcome
      → Jobs × Result StoreError IngestionJobRecord
      → Answer (Option ExecutorJobOutcome)
  completed_or s outcome answer = (
    record s { jobs = answer.0 },
    (map_err ExecutorError.store answer.1 >>= λ _. ok (some outcome)),
  )

  -- How the job ends after an error; the answers of these statements are dropped.
  unfoldable pub end_failed : String → ExecutorError → Jobs → Jobs
  end_failed k (cancelled_at checkpoint) jobs =
      (interrupt_ingestion_job k env.owner (some (cancelled_text checkpoint))
        (some (next_action checkpoint)) (env.clock finishing) jobs).0
  end_failed k e jobs =
      (fail_ingestion_job k env.owner (error_text env.display e) (some failed_action)
        (env.clock finishing) jobs).0

  unfoldable pub conclude : String → Answer ExecutorJobOutcome → Answer (Option ExecutorJobOutcome)
  unfolding end_failed
  conclude k (s, ok outcome) =
      completed_or s outcome (complete_ingestion_job k env.owner (env.clock finishing) s.jobs)
  conclude k (s, err e) = (record s { jobs = end_failed k e s.jobs }, err e)

  unfoldable pub run_claimed :
      SqliteStore
      → Result StoreError (Option IngestionJobRecord)
      → Answer (Option ExecutorJobOutcome)
  unfolding conclude execute_claimed_job
  run_claimed s (err e) = (s, err (ExecutorError.store e))
  run_claimed s (ok none) = (s, ok none)
  run_claimed s (ok (some job)) =
      conclude job.job_key
        ((s, check_cancellation env after_claim) >>> λ s _. execute_claimed_job env job s)

  unfoldable pub run_next_with_ocr_and_cancel : SqliteStore → Answer (Option ExecutorJobOutcome)
  unfolding run_claimed
  run_next_with_ocr_and_cancel s =
      let claimed = claim_next_ingestion_job lease s.jobs in
      run_claimed (record s { jobs = claimed.0 }) claimed.1
