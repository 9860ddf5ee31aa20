-- ===== src/Jobs/Warnings.antt =====
-- Recording a warning: made once, by the holder of the lease.
use foia_search_mcp.Prelude.{
  String, Bool, true, some, ◌≡◌, refl, inl, inr, arith, List, [], ◌∷◌, ◌++◌, str_eq, eq_refl,
  if◌then◌else◌, ok, Option-cases, Bool-cases, any,
}
use foia_search_mcp.Jobs.Table.{
  JobRow, Jobs, IngestionJobRecord, select_job, held_by, read_ingestion_job_record,
}
use foia_search_mcp.Jobs.Update.{set_warnings, record_ingestion_job_warning}
use foia_search_mcp.Jobs.Refine.{held_row, select-held}

abbrev pub has_warning : String → List String → Bool
has_warning w ws = any (λ stored. str_eq stored w) ws

-- The holder's row gets the warning at the end of its list, unless it has it.
abbrev pub add_warning : String → String → JobRow → JobRow
add_warning w now r =
    if has_warning w r.warnings then r else set_warnings (r.warnings ++ w ∷ []) now r

-- Recording a warning refines `add_warning` on the row of the job.
pub warning-refines :
    (k o w now : String) (t : Jobs)
    → (
      select_job k (record_ingestion_job_warning k o w now t).0,
      (record_ingestion_job_warning k o w now t).1,
    )
      ≡ held_row k o (add_warning w now) (select_job k t)
unfolding record_ingestion_job_warning
warning-refines k o w now t = elim (Option-cases (select_job k t)) [
  | inl gone ↦ ground arith
  | inr (r, found) ↦
      ground
        (arith, select-held k o (set_warnings (r.warnings ++ w ∷ []) now) t r (λ x. refl) found)
]

has_warning-append : (w : String) (ws : List String) → has_warning w (ws ++ w ∷ []) ≡ true
has_warning-append w [] = ground (arith, eq_refl w)
has_warning-append w (x ∷ ws) = ground (arith, has_warning-append w ws)

warning_again :
    (k o w now : String) (t : Jobs) (s : JobRow)
    → select_job k t ≡ some s
    → held_by o s ≡ true
    → has_warning w s.warnings ≡ true
    → record_ingestion_job_warning k o w now t ≡ (t, ok (read_ingestion_job_record s))
unfolding record_ingestion_job_warning
warning_again k o w now t s found held old = ground arith

add_warning-held :
    (o w now : String) (r : JobRow) → held_by o r ≡ true → held_by o (add_warning w now r) ≡ true
add_warning-held o w now r held = ground arith

add_warning-has :
    (w now : String) (r : JobRow) → has_warning w (add_warning w now r).warnings ≡ true
add_warning-has w now r = ground (arith, has_warning-append w r.warnings)

-- A warning that has been recorded with success is not recorded again: the second call leaves the
-- table as the first one left it, and returns the same job.
pub warning_idempotent :
    (k o w now later : String) (t : Jobs) (job : IngestionJobRecord)
    → (record_ingestion_job_warning k o w now t).1 ≡ ok job
    → record_ingestion_job_warning k o w later (record_ingestion_job_warning k o w now t).0
      ≡ ((record_ingestion_job_warning k o w now t).0, ok job)
warning_idempotent k o w now later t job h =
    let spec = warning-refines k o w now t in
    elim (Option-cases (select_job k t)) [
      | inl gone ↦ absurd (ground arith)
      | inr (r, found) ↦ elim (Bool-cases (held_by o r)) [
        | inr free ↦ absurd (ground arith)
        | inl held ↦ ground (
          arith,
          warning_again k o w later (record_ingestion_job_warning k o w now t).0
              (add_warning w now r),
          add_warning-held o w now r held,
          add_warning-has w now r,
        )
      ]
    ]
