-- ===== src/Executor/Phases.antt =====
-- What the phases of `execute_claimed_job` keep, at every step where they may end.
use foia_search_mcp.Prelude.{
  ℕ, ◌+◌, String, some, List, [], ◌∷◌, ◌≡◌, refl, inl, inr, arith, Bool-cases, ltb, ◌^◌,
}
use foia_search_mcp.Jobs.Table.{Jobs, IngestionJobRecord}
use foia_search_mcp.Documents.Tables.{Database}
use foia_search_mcp.Documents.Invariant.{execute_all-DatabaseOk, attach}
use foia_search_mcp.Download.Types.{DownloadedAsset}
use foia_search_mcp.SourcePlan.Plan.{SourceIngestionPlan}
use foia_search_mcp.Ingest.Pipeline.{IngestOutcome}
use foia_search_mcp.Executor.Types.{
  before_asset_provenance_write, ExecutorError, SqliteStore, SourceAdapter, ExecutorEnv, marking,
  warning, linking, attaching,
}
use foia_search_mcp.Executor.Run.{
  record_warnings, resolve_and_plan, download_planned, extract_and_ingest, persist_asset,
  execute_claimed_job, mark, document_id_of, asset_input, job_outcome,
}
use foia_search_mcp.Executor.Held.{mark-Working, warning-Working, link-Working}
use foia_search_mcp.Executor.Steps.{
  Meets, ok-Meets, then-Meets, is_early, Before, After, Failed, early_step, late_step, store_late,
}
use foia_search_mcp.Executor.Ingestion.{ingest_step}

module _ {Url : Type 0} (env : ExecutorEnv Url) (job : IngestionJobRecord) (t : Jobs)
    (db : Database) where
  abbrev IsBefore : SqliteStore → Type 0
  IsBefore = Before job.job_key env.owner t db

  abbrev IsAfter : SqliteStore → Type 0
  IsAfter = After job.job_key env.owner t db

  abbrev HasFailed : SqliteStore → ExecutorError → Type 0
  HasFailed = Failed job.job_key env.owner t db

  mark-Before :
      (stage : String) (progress : ℕ) (note : String) (s : SqliteStore)
      → IsBefore s
      → IsBefore (mark env job stage progress note s).0
  mark-Before stage progress note s h = record {
    working =
        mark-Working job.job_key env.owner t stage progress (some note) (env.clock (marking stage))
          s.jobs h.working;
    untouched = h.untouched;
  }

  mark-After :
      (stage : String) (progress : ℕ) (note : String) (s : SqliteStore)
      → IsAfter s
      → IsAfter (mark env job stage progress note s).0
  mark-After stage progress note s h = record {
    working =
        mark-Working job.job_key env.owner t stage progress (some note) (env.clock (marking stage))
          s.jobs h.working;
    kept = h.kept;
  }

  pub resolve_and_plan-Meets :
      (s : SqliteStore)
      → IsBefore s
      → Meets (λ s _. IsBefore s) HasFailed (resolve_and_plan env job s)
  unfolding resolve_and_plan
  resolve_and_plan-Meets s h = early_step _ _ t db _ _ _ h λ s adapter h.
      early_step _ _ t db _ _ _ h λ s id_or_url h.
        early_step _ _ t db _ _ _ (mark-Before _ _ _ s h) λ s _ h.
          early_step _ _ t db _ _ _ h λ s resolved h. early_step _ _ t db _ _ _ h λ s _ h.
            early_step _ _ t db _ _ _ (mark-Before _ _ _ s h) λ s _ h.
              early_step _ _ t db _ _ _ h
                λ s plan h. early_step _ _ t db _ _ _ h λ s _ h. ok-Meets _ _ s (adapter, plan) h

  pub download_planned-Meets :
      (adapter : SourceAdapter) (plan : SourceIngestionPlan) (s : SqliteStore)
      → IsBefore s
      → Meets (λ s _. IsBefore s) HasFailed (download_planned env job adapter plan s)
  unfolding download_planned
  download_planned-Meets adapter plan s h =
      early_step _ _ t db _ _ _ (mark-Before _ _ _ s h) λ s _ h.
        early_step _ _ t db _ _ _ h λ s _ h.
          early_step _ _ t db _ _ _ (record { working = h.working; untouched = h.untouched })
            λ s downloaded h. early_step _ _ t db _ _ _ h λ s _ h. ok-Meets _ _ s downloaded h

  pub extract_and_ingest-Meets :
      (plan : SourceIngestionPlan) (downloaded : DownloadedAsset) (s : SqliteStore)
      → IsBefore s
      → Meets (λ s _. IsAfter s) HasFailed (extract_and_ingest env job plan downloaded s)
  unfolding extract_and_ingest
  extract_and_ingest-Meets plan downloaded s h =
      early_step _ _ t db _ _ _ (mark-Before _ _ _ s h) λ s _ h.
        early_step _ _ t db _ _ _ h λ s _ h. early_step _ _ t db _ _ _ h λ s extracted h.
          early_step _ _ t db _ _ _ (mark-Before _ _ _ s h) λ s _ h.
            early_step _ _ t db _ _ _ h λ s _ h.
              ingest_step _ _ t db plan.document env.chunk_options extracted.0 extracted.1 s h

  record_warnings-Meets :
      (index : ℕ) (ws : List String) (s : SqliteStore)
      → IsAfter s
      → Meets (λ s _. IsAfter s) HasFailed (record_warnings env job index ws s)
  unfolding record_warnings
  record_warnings-Meets index [] s h = ok-Meets _ _ s tt h
  record_warnings-Meets index (w ∷ ws) s h =
      late_step _ _ t db _ _ _
        (record {
          working =
              warning-Working job.job_key env.owner t w (env.clock (warning index)) s.jobs
                h.working;
          kept = h.kept;
        })
        (store_late _) λ s _ h. record_warnings-Meets (index + 1) ws s h

  pub persist_asset-Meets :
      (downloaded : DownloadedAsset) (outcome : IngestOutcome) (s : SqliteStore)
      → IsAfter s
      → Meets
          (λ s done. IsAfter s × (done.job_key ≡ job.job_key))
          HasFailed
          (persist_asset env job downloaded outcome s)
  unfolding persist_asset is_early
  persist_asset-Meets downloaded outcome s h =
      then-Meets (λ s _. IsAfter s) _ HasFailed _ _ (record_warnings-Meets 0 outcome.warnings s h)
        λ s _ h.
          late_step _ _ t db _ _ _
            (record {
              working =
                  link-Working job.job_key env.owner t (document_id_of s.database)
                    outcome.document_key (env.clock linking) s.jobs h.working;
              kept = h.kept;
            })
            (store_late _)
            λ s _ h. late_step _ _ t db _ _ _ (mark-After _ _ _ s h) (store_late _) λ s _ h.
              late_step _ _ t db _ _ _ h
                (λ e came. elim (Bool-cases (env.is_cancelled before_asset_provenance_write)) [
                  | inl c ↦ ground arith
                  | inr c ↦ absurd (ground arith)
                ])
                λ s _ h.
                  late_step _ _ t db _ _ _ h
                    (λ e came. elim (Bool-cases (ltb downloaded.size_bytes (2 ^ 63))) [
                      | inl c ↦ absurd (ground arith)
                      | inr c ↦ ground arith
                    ])
                    λ s size h.
                      late_step _ _ t db _ _ _
                        (record {
                          working = h.working;
                          kept = λ good.
                              execute_all-DatabaseOk
                                (attach (
                                    asset_input outcome.document_key downloaded size
                                      (env.clock attaching))
                                  ∷ [])
                                s.database (h.kept good);
                        })
                        (store_late _) λ s _ h. ok-Meets _ _ s (job_outcome job outcome) (h, refl)

  pub execute_claimed_job-Meets :
      (s : SqliteStore)
      → IsBefore s
      → Meets
          (λ s done. IsAfter s × (done.job_key ≡ job.job_key))
          HasFailed
          (execute_claimed_job env job s)
  unfolding execute_claimed_job
  execute_claimed_job-Meets s h = then-Meets _ _ _ _ _ (resolve_and_plan-Meets s h) λ s planned h.
      then-Meets _ _ _ _ _ (download_planned-Meets planned.0 planned.1 s h) λ s downloaded h.
        then-Meets _ _ _ _ _ (extract_and_ingest-Meets planned.1 downloaded s h)
          λ s outcome h. persist_asset-Meets downloaded outcome s h
