-- ===== src/Jobs/Update.antt =====
-- What the holder of a lease does with its job: stages, warnings, errors, the link to the stored
-- document, and the three ways to finish.
use foia_search_mcp.Prelude.{
  ℕ, String, true, false, Option, none, some, List, [], ◌∷◌, ◌++◌, leb, max, if◌then◌else◌, str_eq,
  format, any, update_where, Result, ok, err, ◌>>=◌,
}
use foia_search_mcp.Store.{
  StoreError, invalid_ingestion_job_progress, invalid_ingestion_job_state, missing_document,
}
use foia_search_mcp.Jobs.Table.{
  Status, succeeded, failed, interrupted, status_eq, status_text, JobRow, IngestionJobRecord, Jobs,
  held_job, get_ingestion_job_record, require_updated_running_job,
}

-- `(0.0..=1.0).contains(&progress)`
unfoldable pub validate_progress : ℕ → Result StoreError (Unit {0})
validate_progress p = if leb p 100 then ok tt else err (invalid_ingestion_job_progress p)

abbrev pub set_stage : String → ℕ → Option String → String → JobRow → JobRow
set_stage stage p next now r = record r {
  stage = stage;
  progress = max r.progress p;
  next_action = next;
  updated_at = now;
}

unfoldable pub mark_ingestion_job_stage :
    String
    → String
    → String
    → ℕ
    → Option String
    → String
    → Jobs
    → Jobs × Result StoreError IngestionJobRecord
unfolding validate_progress require_updated_running_job
mark_ingestion_job_stage k o stage p next now t = elim (validate_progress p) [
  | err e ↦ (t, err e)
  | ok _ ↦
      let t' = update_where (held_job k o) (set_stage stage p next now) t in
      (t', require_updated_running_job k o t')
]

abbrev pub set_warnings : List String → String → JobRow → JobRow
set_warnings ws now r = record r { warnings = ws; updated_at = now }

unfoldable pub record_ingestion_job_warning :
    String → String → String → String → Jobs → Jobs × Result StoreError IngestionJobRecord
unfolding require_updated_running_job
record_ingestion_job_warning k o w now t = elim (require_updated_running_job k o t) [
  | err e ↦ (t, err e)
  | ok job ↦
      let t' =
        if any (λ stored. str_eq stored w) job.warnings
        then t
        else update_where (held_job k o) (set_warnings (job.warnings ++ w ∷ []) now) t in
      (t', require_updated_running_job k o t')
]

abbrev pub set_error : String → String → JobRow → JobRow
set_error e now r = record r { error = some e; updated_at = now }

unfoldable pub record_ingestion_job_error :
    String → String → String → String → Jobs → Jobs × Result StoreError IngestionJobRecord
unfolding require_updated_running_job
record_ingestion_job_error k o e now t =
    let t' = update_where (held_job k o) (set_error e now) t in
    (t', require_updated_running_job k o t')

abbrev pub set_document : Option ℕ → String → JobRow → JobRow
set_document d now r = record r { document_id = d; updated_at = now }

-- `documents` is the subquery SELECT id FROM documents WHERE document_key = ?.
unfoldable pub link_ingestion_job_document :
    (String → Option ℕ)
    → String
    → String
    → String
    → String
    → Jobs
    → Jobs × Result StoreError IngestionJobRecord
unfolding require_updated_running_job
link_ingestion_job_document documents k o document_key now t =
    let t' = update_where (held_job k o) (set_document (documents document_key) now) t in
    (
      t',
      do
        job ← require_updated_running_job k o t'
        elim job.document_id [ some _ ↦ ok job | none ↦ err (missing_document document_key) ],
    )

pub record FinishedJob : Type 0 where
  pub status : Status
  pub stage : Option String
  pub progress : Option ℕ
  pub error : Option String
  pub next_action : Option String

abbrev pub coalesce {ℓ} : {A : Type ℓ} → Option A → A → A
coalesce none a = a
coalesce (some b) a = b

abbrev pub set_finished : FinishedJob → String → JobRow → JobRow
set_finished f now r = record r {
  status = f.status;
  stage = coalesce f.stage r.stage;
  progress = coalesce f.progress r.progress;
  lease_owner = none;
  lease_expires_at = none;
  error = f.error;
  next_action = f.next_action;
  updated_at = now;
}

unfoldable pub finish_ingestion_job :
    String → String → FinishedJob → String → Jobs → Jobs × Result StoreError IngestionJobRecord
unfolding get_ingestion_job_record
finish_ingestion_job k o f now t = elim (get_ingestion_job_record k t) [
  | err e ↦ (t, err e)
  | ok current ↦ elim (status_eq current.status f.status) [
    | true ↦ (t, ok current)
    | false ↦
        let t' = update_where (held_job k o) (set_finished f now) t in
        (
          t',
          do
            job ← get_ingestion_job_record k t'
            if status_eq job.status f.status
                then ok job
                else err (
                    invalid_ingestion_job_state job.job_key (
                      format (
                        "job with status '"
                        ∷ status_text job.status
                        ∷ "' cannot transition to '"
                        ∷ status_text f.status
                        ∷ "'"
                        ∷ []))),
        )
  ]
]

abbrev pub completed : FinishedJob
completed = record {
  status = succeeded;
  stage = some "succeeded";
  progress = some 100;
  error = none;
  next_action = some "Ingestion completed; local search index is ready.";
}

abbrev pub failure : String → Option String → FinishedJob
failure e next = record {
  status = failed;
  stage = some "failed";
  progress = none;
  error = some e;
  next_action = next;
}

abbrev pub interruption : Option String → Option String → FinishedJob
interruption e next = record {
  status = interrupted;
  stage = none;
  progress = none;
  error = e;
  next_action = next;
}

unfoldable pub complete_ingestion_job :
    String → String → String → Jobs → Jobs × Result StoreError IngestionJobRecord
unfolding finish_ingestion_job
complete_ingestion_job k o now t = finish_ingestion_job k o completed now t

unfoldable pub fail_ingestion_job :
    String
    → String
    → String
    → Option String
    → String
    → Jobs
    → Jobs × Result StoreError IngestionJobRecord
unfolding finish_ingestion_job
fail_ingestion_job k o e next now t = finish_ingestion_job k o (failure e next) now t

unfoldable pub interrupt_ingestion_job :
    String
    → String
    → Option String
    → Option String
    → String
    → Jobs
    → Jobs × Result StoreError IngestionJobRecord
unfolding finish_ingestion_job
interrupt_ingestion_job k o e next now t = finish_ingestion_job k o (interruption e next) now t
