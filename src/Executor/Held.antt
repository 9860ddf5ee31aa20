-- ===== src/Executor/Held.antt =====
-- The job that a run works on: it stays the worker's, and the other rows are left alone.
use foia_search_mcp.Prelude.{
  ℕ, String, true, Option, some, [], ◌∷◌, ◌++◌, ◌≡◌, ◌≢◌, refl, inl, inr, arith, ◌∙◌, ap, any, leb,
  str_eq, eq_iff, update_where, find-update_where, find-Memᴰ, Bool-cases, Option-cases,
}
use foia_search_mcp.Jobs.Table.{JobRow, Jobs, select_job, held_by, held_job}
use foia_search_mcp.Jobs.Update.{
  set_stage, set_warnings, set_document, mark_ingestion_job_stage, record_ingestion_job_warning,
  link_ingestion_job_document, validate_progress,
}
use foia_search_mcp.Jobs.Running.{require_cases}
use foia_search_mcp.Jobs.Refine.{Quiet, select-held}
use foia_search_mcp.Jobs.Evolve.{mark-Alters, warning-Alters, link-Alters}
use foia_search_mcp.Jobs.Invariant.{JobsOk, altered-JobsOk}

-- The worker `o` holds the job `k` in the table `u`, and the rows under other keys are those of `t`.
pub record Holding (k o : String) (t u : Jobs) : Type 0 where
  pub row : JobRow
  pub found : select_job k u ≡ some row
  pub held : held_by o row ≡ true
  pub others : (k' : String) → k' ≢ k → select_job k' u ≡ select_job k' t

-- A row under another key is not the held one.
pub select-others :
    (k o k' : String) (f : JobRow → JobRow) (u : Jobs)
    → Quiet f
    → k' ≢ k
    → select_job k' (update_where (held_job k o) f u) ≡ select_job k' u
select-others k o k' f u quiet ne =
    find-update_where (λ r. str_eq r.job_key k') (held_job k o) f u
      (λ r. ap (λ j. str_eq j k') (quiet r))
    ∙ elim (Option-cases (select_job k' u)) [
      | inl gone ↦ rw gone refl
      | inr (r, found) ↦
          let is_k' = (eq_iff r.job_key k').0 (find-Memᴰ (λ x. str_eq x.job_key k') u r found).1 in
          rw found (elim (Bool-cases (str_eq r.job_key k)) [
            | inl is_k ↦ absurd (ne (ground (arith, is_k', (eq_iff r.job_key k).0 is_k)))
            | inr miss ↦ rw miss refl
          ])
    ]

module _ (k o : String) (t : Jobs) where
  pub updated-Holding :
      (f : JobRow → JobRow) (u : Jobs)
      → Quiet f
      → ((r : JobRow) → held_by o r ≡ true → held_by o (f r) ≡ true)
      → Holding k o t u
      → Holding k o t (update_where (held_job k o) f u)
  updated-Holding f u quiet stays w = record {
    row = f w.row;
    found = select-held k o f u w.row quiet w.found ∙ rw w.held refl;
    held = stays w.row w.held;
    others = λ k' ne. select-others k o k' f u quiet ne ∙ w.others k' ne;
  }

  mark-Holding :
      (stage : String) (p : ℕ) (next : Option String) (now : String) (u : Jobs)
      → Holding k o t u
      → Holding k o t (mark_ingestion_job_stage k o stage p next now u).0
  unfolding mark_ingestion_job_stage
  mark-Holding stage p next now u w = elim (Bool-cases (leb p 100)) [
    | inl fits ↦
        rw (fits, mark_ingestion_job_stage, validate_progress)
          (updated-Holding (set_stage stage p next now) u (λ r. refl) (λ r h. h) w)
    | inr big ↦ rw (big, mark_ingestion_job_stage, validate_progress) w
  ]

  warning-Holding :
      (warning now : String) (u : Jobs)
      → Holding k o t u
      → Holding k o t (record_ingestion_job_warning k o warning now u).0
  unfolding record_ingestion_job_warning
  warning-Holding warning now u w = elim (require_cases k o u) [
    | inr (e, got) ↦ rw (got, record_ingestion_job_warning) w
    | inl (r, found, held, got) ↦ elim (Bool-cases (any (λ s. str_eq s warning) r.warnings)) [
      | inl old ↦ rw (got, record_ingestion_job_warning, old) w
      | inr new ↦
          rw (got, record_ingestion_job_warning, new)
            (updated-Holding (set_warnings (r.warnings ++ warning ∷ []) now) u (λ r. refl)
              (λ r h. h) w)
    ]
  ]

  link-Holding :
      (documents : String → Option ℕ) (key now : String) (u : Jobs)
      → Holding k o t u
      → Holding k o t (link_ingestion_job_document documents k o key now u).0
  unfolding link_ingestion_job_document
  link-Holding documents key now u w =
      updated-Holding (set_document (documents key) now) u (λ r. refl) (λ r h. h) w

-- That holds, and the rows have kept their invariant.
pub record Working (k o : String) (t u : Jobs) : Type 0 where
  pub holding : Holding k o t u
  pub sound : JobsOk t → JobsOk u

module _ (k o : String) (t : Jobs) where
  pub mark-Working :
      (stage : String) (p : ℕ) (next : Option String) (now : String) (u : Jobs)
      → Working k o t u
      → Working k o t (mark_ingestion_job_stage k o stage p next now u).0
  mark-Working stage p next now u w = record {
    holding = mark-Holding k o t stage p next now u w.holding;
    sound = λ ok. altered-JobsOk o now u _ (mark-Alters k o stage p next now now u) (w.sound ok);
  }

  pub warning-Working :
      (warning now : String) (u : Jobs)
      → Working k o t u
      → Working k o t (record_ingestion_job_warning k o warning now u).0
  warning-Working warning now u w = record {
    holding = warning-Holding k o t warning now u w.holding;
    sound = λ ok.
        let good = w.sound ok in
        altered-JobsOk o now u _ (warning-Alters k o warning now now u good.keys) good;
  }

  pub link-Working :
      (documents : String → Option ℕ) (key now : String) (u : Jobs)
      → Working k o t u
      → Working k o t (link_ingestion_job_document documents k o key now u).0
  link-Working documents key now u w = record {
    holding = link-Holding k o t documents key now u w.holding;
    sound = λ ok. altered-JobsOk o now u _ (link-Alters documents k o key now now u) (w.sound ok);
  }
