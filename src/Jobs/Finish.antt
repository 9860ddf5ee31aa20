-- ===== src/Jobs/Finish.antt =====
-- The outcomes of `complete`, `fail` and `interrupt`, and of a claim by key.
use foia_search_mcp.Prelude.{
  String, Option, none, some, ◌≡◌, refl, inl, inr, arith, [], ◌∷◌, str_eq, format,
  find-update_where, update_where, ◌∙◌, if◌then◌else◌, ok, err, Option-cases, Bool-cases, find-Memᴰ,
  Result,
}
use foia_search_mcp.Store.{StoreError, missing_ingestion_job, invalid_ingestion_job_state}
use foia_search_mcp.Jobs.Table.{
  JobRow, Jobs, IngestionJobRecord, select_job, status_eq, status_text, held_by, held_job,
  read_ingestion_job_record,
}
use foia_search_mcp.Jobs.Update.{FinishedJob, set_finished, finish_ingestion_job}

-- The specification of a finish: what becomes of the one row under the key, and the answer.
-- The holder of the lease is given the finished row; a job that has the status already is returned
-- as it is, to whoever asks; any other job is left alone.
abbrev pub finish_row :
    String
    → String
    → FinishedJob
    → String
    → Option JobRow
    → Option JobRow × Result StoreError IngestionJobRecord
finish_row k o f now none = (none, err (missing_ingestion_job k))
finish_row k o f now (some r) =
    if status_eq r.status f.status
    then (some r, ok (read_ingestion_job_record r))
    else if held_by o r
    then (some (set_finished f now r), ok (read_ingestion_job_record (set_finished f now r)))
    else (
      some r,
      err (
          invalid_ingestion_job_state r.job_key (
            format (
              "job with status '"
              ∷ status_text r.status
              ∷ "' cannot transition to '"
              ∷ status_text f.status
              ∷ "'"
              ∷ []))),
    )

module _ (k o : String) (f : FinishedJob) (now : String) (t : Jobs) where
  -- What the row under the key is after the UPDATE of `finish_ingestion_job`.
  select-finish :
      (r : JobRow)
      → select_job k t ≡ some r
      → select_job k (update_where (held_job k o) (set_finished f now) t)
        ≡ some (if held_by o r then set_finished f now r else r)
  select-finish r found =
      find-update_where (λ x. str_eq x.job_key k) (held_job k o) (set_finished f now) t (λ x. refl)
      ∙ rw found (ground (arith, (find-Memᴰ (λ x. str_eq x.job_key k) t r found).1))

  pub finish-refines :
      (select_job k (finish_ingestion_job k o f now t).0, (finish_ingestion_job k o f now t).1)
      ≡ finish_row k o f now (select_job k t)
  unfolding finish_ingestion_job
  finish-refines = elim (Option-cases (select_job k t)) [
    | inl gone ↦ ground arith
    | inr (r, found) ↦ elim (Bool-cases (status_eq r.status f.status)) [
      | inl same ↦ ground arith
      | inr other ↦ ground (arith, select-finish r found)
    ]
  ]
