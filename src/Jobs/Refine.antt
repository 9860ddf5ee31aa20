-- ===== src/Jobs/Refine.antt =====
-- The operations on a claimed job against their specifications on the one row under its key.
use foia_search_mcp.Prelude.{
  ℕ, String, Bool, ◌&&◌, Option, none, some, ◌≡◌, refl, inl, inr, arith, [], ◌∷◌, str_eq, format,
  find-update_where, update_where, ◌∙◌, ap, if◌then◌else◌, ok, err, Option-cases, find-Memᴰ, Result,
  leb,
}
use foia_search_mcp.Store.{
  StoreError, missing_ingestion_job, invalid_ingestion_job_state, invalid_ingestion_job_progress,
}
use foia_search_mcp.Jobs.Table.{
  JobRow, Jobs, IngestionJobLease, IngestionJobRecord, select_job, status_text, held_by, held_job,
  read_ingestion_job_record,
}
use foia_search_mcp.Jobs.Claim.{claimable_by, renew_lease}
use foia_search_mcp.Jobs.Update.{set_stage, mark_ingestion_job_stage}

-- A change `f` asked for under a lease: made for the holder alone.
abbrev pub held_row :
    String
    → String
    → (JobRow → JobRow)
    → Option JobRow
    → Option JobRow × Result StoreError IngestionJobRecord
held_row k o f none = (none, err (missing_ingestion_job k))
held_row k o f (some r) =
    if held_by o r then (some (f r), ok (read_ingestion_job_record (f r))) else (
      some r,
      err (invalid_ingestion_job_state r.job_key "job is not running under the requested lease"),
    )

-- A change that leaves alone the key and the lease.
abbrev pub Quiet : (JobRow → JobRow) → Type 0
Quiet f = (r : JobRow) → (f r).job_key ≡ r.job_key

pub select-held :
    (k o : String) (f : JobRow → JobRow) (t : Jobs) (r : JobRow)
    → Quiet f
    → select_job k t ≡ some r
    → select_job k (update_where (held_job k o) f t) ≡ some (if held_by o r then f r else r)
select-held k o f t r quiet found =
    find-update_where (λ x. str_eq x.job_key k) (held_job k o) f t
      (λ x. ap (λ j. str_eq j k) (quiet x))
    ∙ rw found (ground (arith, (find-Memᴰ (λ x. str_eq x.job_key k) t r found).1))

select-held_none :
    (k o : String) (f : JobRow → JobRow) (t : Jobs)
    → Quiet f
    → select_job k t ≡ none
    → select_job k (update_where (held_job k o) f t) ≡ none
select-held_none k o f t quiet gone =
    find-update_where (λ x. str_eq x.job_key k) (held_job k o) f t
      (λ x. ap (λ j. str_eq j k) (quiet x))
    ∙ rw gone

-- A mark of a stage is refused for a progress above 1.0; else it is made for the holder alone.
abbrev pub mark_row :
    String
    → String
    → String
    → ℕ
    → Option String
    → String
    → Option JobRow
    → Option JobRow × Result StoreError IngestionJobRecord
mark_row k o stage p next now row =
    if leb p 100
    then held_row k o (set_stage stage p next now) row
    else (row, err (invalid_ingestion_job_progress p))

-- Marking a stage refines its specification on the row.
pub mark-refines :
    (k o stage : String) (p : ℕ) (next : Option String) (now : String) (t : Jobs)
    → (
      select_job k (mark_ingestion_job_stage k o stage p next now t).0,
      (mark_ingestion_job_stage k o stage p next now t).1,
    )
      ≡ mark_row k o stage p next now (select_job k t)
unfolding mark_ingestion_job_stage
mark-refines k o stage p next now t =
    let f = set_stage stage p next now in
    elim (Option-cases (select_job k t)) [
      | inl gone ↦ ground (arith, select-held_none k o f t (λ x. refl) gone)
      | inr (r, found) ↦ ground (arith, select-held k o f t r (λ x. refl) found)
    ]

-- The specification of a claim by key: a job that waits, has lost its lease or is the owner's own is
-- taken, any other is left alone.
abbrev pub claim_row :
    String
    → IngestionJobLease
    → Option JobRow
    → Option JobRow × Result StoreError IngestionJobRecord
claim_row k l none = (none, err (missing_ingestion_job k))
claim_row k l (some r) =
    if claimable_by l r
    then (some (renew_lease l r), ok (read_ingestion_job_record (renew_lease l r)))
    else (
      some r,
      err (
          invalid_ingestion_job_state r.job_key
            (format ("job with status '" ∷ status_text r.status ∷ "' cannot be claimed" ∷ []))),
    )

abbrev hits : String → IngestionJobLease → JobRow → Bool
hits k l r = str_eq r.job_key k && claimable_by l r
