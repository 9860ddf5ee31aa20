-- ===== src/Executor/Ends.antt =====
-- How a run of the executor ends.
use foia_search_mcp.Prelude.{
  ◌+◌, String, true, false, Option, none, some, ◌≡◌, ◌≢◌, ◌⊎◌, refl, inl, inr, ap, Option-cases,
  Result, ok, err,
}
use foia_search_mcp.Store.{StoreError}
use foia_search_mcp.Jobs.Table.{
  JobRow, Jobs, IngestionJobRecord, select_job, running, status_eq, read_ingestion_job_record,
}
use foia_search_mcp.Jobs.Claim.{next_claimable, take_lease, claim_next_ingestion_job}
use foia_search_mcp.Jobs.Change.{UniqueIds, UniqueKeys}
use foia_search_mcp.Jobs.Update.{
  FinishedJob, set_finished, completed, failure, interruption, finish_ingestion_job,
  complete_ingestion_job, fail_ingestion_job, interrupt_ingestion_job,
}
use foia_search_mcp.Jobs.Evolve.{finish-Alters}
use foia_search_mcp.Jobs.Invariant.{JobsOk, altered-JobsOk}
use foia_search_mcp.Documents.Tables.{Database}
use foia_search_mcp.Documents.Invariant.{DatabaseOk}
use foia_search_mcp.Executor.Types.{
  ExecutorError, missing_source_adapter, missing_job_locator, asset_size_overflow, cancelled_at,
  ExecutorJobOutcome, SqliteStore, ExecutorEnv, after_claim, finishing, error_text, next_action,
}
use foia_search_mcp.Executor.Run.{Answer, ◌>>>◌, check_cancellation, execute_claimed_job}
use foia_search_mcp.Executor.Next.{
  lease, cancelled_text, failed_action, end_failed, conclude, run_claimed,
  run_next_with_ocr_and_cancel,
}
use foia_search_mcp.Executor.Steps.{Meets, is_early, Before, After, Failed, early_step}
use foia_search_mcp.Executor.Phases.{execute_claimed_job-Meets}
use foia_search_mcp.Executor.Leases.{
  claimed-Working, claim_next-idle, claim_next-picked, finish_held-found, finish_held-others,
  finish_held-ok,
}

module _ {Url : Type 0} (env : ExecutorEnv Url) where
  -- What an error makes of the job: a cancellation interrupts it, with the checkpoint's advice, and
  -- any other error fails it, with the error's text.
  abbrev pub ending_of : ExecutorError → FinishedJob
  ending_of (cancelled_at checkpoint) =
      interruption (some (cancelled_text env checkpoint)) (some (next_action checkpoint))
  ending_of e = failure (error_text env.display e) (some (failed_action env))

  end_failed-finish :
      (k : String) (e : ExecutorError) (t : Jobs)
      → end_failed env k e t
        ≡ (finish_ingestion_job k env.owner (ending_of e) (env.clock finishing) t).0
  unfolding end_failed fail_ingestion_job interrupt_ingestion_job
  end_failed-finish k (ExecutorError.store e) t = refl
  end_failed-finish k (missing_source_adapter name) t = refl
  end_failed-finish k (missing_job_locator job_key) t = refl
  end_failed-finish k (ExecutorError.source e) t = refl
  end_failed-finish k (ExecutorError.plan e) t = refl
  end_failed-finish k (ExecutorError.download e) t = refl
  end_failed-finish k (ExecutorError.ingest e) t = refl
  end_failed-finish k (asset_size_overflow n) t = refl
  end_failed-finish k (cancelled_at checkpoint) t = refl

  ending_of-stops : (e : ExecutorError) → status_eq running (ending_of e).status ≡ false
  ending_of-stops (ExecutorError.store e) = refl
  ending_of-stops (missing_source_adapter name) = refl
  ending_of-stops (missing_job_locator job_key) = refl
  ending_of-stops (ExecutorError.source e) = refl
  ending_of-stops (ExecutorError.plan e) = refl
  ending_of-stops (ExecutorError.download e) = refl
  ending_of-stops (ExecutorError.ingest e) = refl
  ending_of-stops (asset_size_overflow n) = refl
  ending_of-stops (cancelled_at checkpoint) = refl

  ending_of-way :
      (e : ExecutorError)
      → (ending_of e ≡ completed)
        ⊎ ((message : String) × (n : Option String) × (ending_of e ≡ failure message n))
        ⊎ ((message : Option String) × (n : Option String) × (ending_of e ≡ interruption message n))
  ending_of-way (ExecutorError.store x) = inr (inl (_, _, refl))
  ending_of-way (missing_source_adapter name) = inr (inl (_, _, refl))
  ending_of-way (missing_job_locator job_key) = inr (inl (_, _, refl))
  ending_of-way (ExecutorError.source x) = inr (inl (_, _, refl))
  ending_of-way (ExecutorError.plan x) = inr (inl (_, _, refl))
  ending_of-way (ExecutorError.download x) = inr (inl (_, _, refl))
  ending_of-way (ExecutorError.ingest x) = inr (inl (_, _, refl))
  ending_of-way (asset_size_overflow n) = inr (inl (_, _, refl))
  ending_of-way (cancelled_at checkpoint) = inr (inr (_, _, refl))

  abbrev pub ending : Result ExecutorError (Option ExecutorJobOutcome) → FinishedJob
  ending (ok outcome) = completed
  ending (err e) = ending_of e

  -- A success names the job, and an error from before the ingestion leaves the documents alone.
  abbrev pub Answers :
      String → Database → Database → Result ExecutorError (Option ExecutorJobOutcome) → Type 0
  Answers k db db' (ok none) = ⊥
  Answers k db db' (ok (some outcome)) = outcome.job_key ≡ k
  Answers k db db' (err e) = is_early e ≡ true → db' ≡ db

  -- The job `k` of the store `s` was run, with the given result.
  pub record RanJob (k : String) (s s' : SqliteStore)
      (r : Result ExecutorError (Option ExecutorJobOutcome)) : Type 0 where
    pub row : JobRow
    pub found : select_job k s'.jobs ≡ some row
    pub status : row.status ≡ (ending r).status
    pub error : row.error ≡ (ending r).error
    pub next_action : row.next_action ≡ (ending r).next_action
    pub released : row.lease_owner ≡ none
    pub others : (k' : String) → k' ≢ k → select_job k' s'.jobs ≡ select_job k' s.jobs
    pub answers : Answers k s.database s'.database r
    pub kept : DatabaseOk s.database → DatabaseOk s'.database
    pub sound : JobsOk s.jobs → JobsOk s'.jobs

  conclude-RanJob :
      (k : String) (s : SqliteStore) (answer : Answer ExecutorJobOutcome)
      → Meets
          (λ s' done. After k env.owner s.jobs s.database s' × (done.job_key ≡ k))
          (Failed k env.owner s.jobs s.database)
          answer
      → RanJob k s (conclude env k answer).0 (conclude env k answer).1
  unfolding conclude Meets complete_ingestion_job
  conclude-RanJob k s (s', ok outcome) (h, named) =
      let got =
        finish_held-ok k env.owner completed (env.clock finishing) s.jobs s'.jobs h.working.holding
          refl in
      rw got (record {
        row = set_finished completed (env.clock finishing) h.working.holding.row;
        found =
            finish_held-found k env.owner completed (env.clock finishing) s.jobs s'.jobs
              h.working.holding refl;
        status = refl;
        error = refl;
        next_action = refl;
        released = refl;
        others =
            finish_held-others k env.owner completed (env.clock finishing) s.jobs s'.jobs
              h.working.holding refl;
        answers = named;
        kept = h.kept;
        sound = λ ok.
            altered-JobsOk env.owner (env.clock finishing) s'.jobs _
              (finish-Alters k env.owner completed (env.clock finishing) (env.clock finishing)
                s'.jobs (inl refl))
              (h.working.sound ok);
      })
  conclude-RanJob k s (s', err e) h = rw (end_failed-finish k e s'.jobs) (record {
    row = set_finished (ending_of e) (env.clock finishing) h.working.holding.row;
    found =
        finish_held-found k env.owner (ending_of e) (env.clock finishing) s.jobs s'.jobs
          h.working.holding (ending_of-stops e);
    status = refl;
    error = refl;
    next_action = refl;
    released = refl;
    others =
        finish_held-others k env.owner (ending_of e) (env.clock finishing) s.jobs s'.jobs
          h.working.holding (ending_of-stops e);
    answers = h.untouched;
    kept = h.kept;
    sound = λ ok.
        altered-JobsOk env.owner (env.clock finishing) s'.jobs _
          (finish-Alters k env.owner (ending_of e) (env.clock finishing) (env.clock finishing)
            s'.jobs (ending_of-way e))
          (h.working.sound ok);
  })

  -- A run finds nothing to do, or it runs the job that is first in order.
  abbrev pub IsExecution : SqliteStore → Answer (Option ExecutorJobOutcome) → Type 0
  IsExecution s (s', r) =
      ((next_claimable (lease env).now s.jobs ≡ none) × (s' ≡ s) × (r ≡ ok none))
      ⊎ ((job : JobRow) × (next_claimable (lease env).now s.jobs ≡ some job)
          × RanJob job.job_key s s' r)

  checked-Meets :
      (job : IngestionJobRecord) (s s' : SqliteStore)
      → Before job.job_key env.owner s.jobs s.database s'
      → Meets
          (λ s' done.
            After job.job_key env.owner s.jobs s.database s' × (done.job_key ≡ job.job_key))
          (Failed job.job_key env.owner s.jobs s.database)
          ((s', check_cancellation env after_claim) >>> λ s _. execute_claimed_job env job s)
  checked-Meets job s s' h =
      early_step _ _ s.jobs s.database _ _ _ h λ s _ h. execute_claimed_job-Meets env job _ _ s h

  run_next-eq :
      (s : SqliteStore) (c : Jobs × Result StoreError (Option IngestionJobRecord))
      → claim_next_ingestion_job (lease env) s.jobs ≡ c
      → run_next_with_ocr_and_cancel env s ≡ run_claimed env (record s { jobs = c.0 }) c.1
  unfolding run_next_with_ocr_and_cancel
  run_next-eq s c e = ap (λ x. run_claimed env (record s { jobs = x.0 }) x.1) e

  -- A run of the executor, in a queue whose ids and keys are unique, either finds no job to claim and
  -- leaves the store as it was; or it runs the first claimable job, and then that job is no longer
  -- leased and has succeeded, with the run's outcome naming it, or has failed with the text of the
  -- run's error, or is interrupted with the advice of the checkpoint at which the run was cancelled.
  -- The rows of other jobs stay as they were, the queue and the database keep their invariants, and
  -- the database is unchanged where the run ended before the ingestion wrote to it.
  pub run_next-IsExecution :
      (s : SqliteStore)
      → UniqueIds s.jobs
      → UniqueKeys s.jobs
      → IsExecution s (run_next_with_ocr_and_cancel env s)
  unfolding run_claimed
  run_next-IsExecution s ids keys = elim (Option-cases (next_claimable (lease env).now s.jobs)) [
    | inl idle ↦
        let ran = run_next-eq s _ (claim_next-idle (lease env) s.jobs idle) in
        inl (idle, ap (λ a. a.0) ran, ap (λ a. a.1) ran)
    | inr (job, picked) ↦
        let claimed = claim_next-picked (lease env) s.jobs job picked in
        inr (
          job,
          picked,
          rw (run_next-eq s _ claimed) (
              conclude-RanJob job.job_key s _ (
                checked-Meets
                  (read_ingestion_job_record (take_lease (lease env) (job.attempts + 1) job)) s _
                  (record {
                    working = claimed-Working (lease env) s.jobs job ids keys picked;
                    untouched = refl;
                  }))),
        )
  ]
