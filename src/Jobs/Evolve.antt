-- ===== src/Jobs/Evolve.antt =====
-- Every operation of the queue changes rows by `Change` alone, and inserts queued rows alone.
use mathlib.Core.List.{Memᴰ}
use foia_search_mcp.Prelude.{
  ℕ, ◌+◌, String, Bool, true, Option, ◌≡◌, refl, ◌⊎◌, inl, inr, arith, any, str_eq, Evolves,
  Alters-Evolves, Evolves-refl, Evolves-update_where, Evolves-append, if◌then◌else◌, Distinct-eq,
  Bool-cases, ==_iff, update_where, eq_iff, sym, ◌∙◌, Option-cases, find-Memᴰ, leb, leb→le,
}
use foia_search_mcp.Jobs.Table.{
  JobRow, IngestionJobLease, Jobs, held_by, held_job, select_job, status_eq,
  get_ingestion_job_record,
}
use foia_search_mcp.Jobs.Claim.{
  claimable, claimable_by, next_claimable, claim_next_ingestion_job, claim_ingestion_job,
}
use foia_search_mcp.Jobs.Update.{
  FinishedJob, completed, failure, interruption, mark_ingestion_job_stage,
  record_ingestion_job_warning, validate_progress, record_ingestion_job_error,
  link_ingestion_job_document, finish_ingestion_job, coalesce,
}
use foia_search_mcp.Jobs.Create.{NewIngestionJob, JobQueue, create_ingestion_job, next_id}
use foia_search_mcp.Jobs.Ops.{
  Op, create, claim_next, claim, update, run_op, run_update, Update, mark_stage, record_warning,
  record_error, link_document, complete, fail, interrupt, op_owner, op_now,
}
use foia_search_mcp.Jobs.Running.{require_cases}
use foia_search_mcp.Jobs.Change.{
  Change, leased, staged, warned, faulted, linked, finished, IsNew, UniqueIds, UniqueKeys,
  JobsAlter, JobsEvolve, next_claimable-Memᴰ,
}

unchanged : (o now : String) (t : Jobs) → JobsAlter o now t t
unchanged o now t = Evolves-refl (λ _. ⊥) (Change o now) t

updated :
    (o now : String) (p : JobRow → Bool) (f : JobRow → JobRow) (t : Jobs)
    → ((r : JobRow) → Memᴰ r t → p r ≡ true → Change o now r (f r))
    → JobsAlter o now t (update_where p f t)
updated o now p f t h = Evolves-update_where (λ _. ⊥) (Change o now) p f t h

-- The two halves of the test `held_job`.
held_job-parts :
    (k o : String) (r : JobRow)
    → held_job k o r ≡ true
    → (str_eq r.job_key k ≡ true) × (held_by o r ≡ true)
held_job-parts k o r h = ground arith

claimable-claimable_by :
    (l : IngestionJobLease) (r : JobRow) → claimable l.now r ≡ true → claimable_by l r ≡ true
claimable-claimable_by l r h = ground arith

pub claim_next-Alters :
    (l : IngestionJobLease) (t : Jobs)
    → UniqueIds t
    → JobsAlter l.owner l.now t (claim_next_ingestion_job l t).0
unfolding claim_next_ingestion_job
claim_next-Alters l t ids = elim (Option-cases (next_claimable l.now t)) [
  | inl e ↦ rw (e, claim_next_ingestion_job) (unchanged l.owner l.now t)
  | inr (r, e) ↦
      let (m, c) = next_claimable-Memᴰ l.now t r e in
      rw (e, claim_next_ingestion_job)
        (updated l.owner l.now _ _ t λ x mx same.
          let x_is_r : x ≡ r = Distinct-eq _ t x r ids mx m ((==_iff x.id r.id).0 same) in
          leased l (x.attempts + 1) refl refl (claimable-claimable_by l x (rw x_is_r c)) (inl refl)
            refl)
]

pub claim-Alters :
    (k : String) (l : IngestionJobLease) (t : Jobs)
    → JobsAlter l.owner l.now t (claim_ingestion_job k l t).0
unfolding claim_ingestion_job
claim-Alters k l t = updated l.owner l.now _ _ t λ x mx hit.
    leased l (if held_by l.owner x then x.attempts else x.attempts + 1) refl refl (ground arith)
      (elim (Bool-cases (held_by l.owner x)) [
        | inl held ↦ inr (held, rw held)
        | inr free ↦ inl (rw free)
      ])
      refl

pub mark-Alters :
    (k o stage : String) (p : ℕ) (next : Option String) (at now : String) (t : Jobs)
    → JobsAlter o now t (mark_ingestion_job_stage k o stage p next at t).0
unfolding mark_ingestion_job_stage
mark-Alters k o stage p next at now t = elim (Bool-cases (leb p 100)) [
  | inl fits ↦
      rw (fits, mark_ingestion_job_stage, validate_progress)
        (updated o now _ _ t
          λ x mx hit. staged stage p next at (held_job-parts k o x hit).1 (leb→le p 100 fits) refl)
  | inr big ↦ rw (big, mark_ingestion_job_stage, validate_progress) (unchanged o now t)
]

pub error-Alters :
    (k o e at now : String) (t : Jobs) → JobsAlter o now t (record_ingestion_job_error k o e at t).0
unfolding record_ingestion_job_error
error-Alters k o e at now t =
    updated o now _ _ t λ x mx hit. faulted e at (held_job-parts k o x hit).1 refl

pub link-Alters :
    (documents : String → Option ℕ) (k o key at now : String) (t : Jobs)
    → JobsAlter o now t (link_ingestion_job_document documents k o key at t).0
unfolding link_ingestion_job_document
link-Alters documents k o key at now t =
    updated o now _ _ t λ x mx hit. linked (documents key) at (held_job-parts k o x hit).1 refl

pub finish-Alters :
    (k o : String) (f : FinishedJob) (at now : String) (t : Jobs)
    → (f ≡ completed)
      ⊎ ((e : String) × (n : Option String) × (f ≡ failure e n))
      ⊎ ((e : Option String) × (n : Option String) × (f ≡ interruption e n))
    → JobsAlter o now t (finish_ingestion_job k o f at t).0
unfolding finish_ingestion_job
finish-Alters k o f at now t way = elim (Option-cases (select_job k t)) [
  | inl got ↦ rw (got, finish_ingestion_job, get_ingestion_job_record) (unchanged o now t)
  | inr (job, got) ↦ elim (Bool-cases (status_eq job.status f.status)) [
    | inl same ↦ rw (got, same, finish_ingestion_job, get_ingestion_job_record) (unchanged o now t)
    | inr other ↦
        rw (got, other, finish_ingestion_job, get_ingestion_job_record)
          (updated o now _ _ t λ x mx hit. finished f at (held_job-parts k o x hit).1 way refl)
  ]
]

-- The warnings that are written back are those of the one row with the key.
pub warning-Alters :
    (k o w at now : String) (t : Jobs)
    → UniqueKeys t
    → JobsAlter o now t (record_ingestion_job_warning k o w at t).0
unfolding record_ingestion_job_warning
warning-Alters k o w at now t keys = elim (require_cases k o t) [
  | inr (e, got) ↦ rw (got, record_ingestion_job_warning) (unchanged o now t)
  | inl (r, found, held, got) ↦ elim (Bool-cases (any (λ s. str_eq s w) r.warnings)) [
    | inl old ↦ rw (got, record_ingestion_job_warning, old) (unchanged o now t)
    | inr new ↦
        let (m, is_k) = find-Memᴰ (λ r. str_eq r.job_key k) t r found in
        rw (got, record_ingestion_job_warning, new)
          (updated o now _ _ t λ x mx hit.
            let (x_is_k, hx) = held_job-parts k o x hit in
            let same : r ≡ x =
              Distinct-eq _ t r x keys m mx
                ((eq_iff r.job_key k).0 is_k ∙ sym ((eq_iff x.job_key k).0 x_is_k)) in
            warned w at hx (rw (← same) new) (rw same))
  ]
]

pub create-Evolves :
    (R : JobRow → JobRow → Type 0) (job : NewIngestionJob) (at : String) (q : JobQueue)
    → Evolves IsNew R q.jobs (create_ingestion_job job at q).0.jobs
unfolding create_ingestion_job
create-Evolves R job at q =
    elim (Bool-cases (any (λ (r : JobRow). str_eq r.job_key job.job_key) q.jobs)) [
      | inl old ↦ rw old (Evolves-refl IsNew R q.jobs)
      | inr new ↦ rw new (Evolves-append IsNew R q.jobs _ ((job, next_id q.jobs, at, refl), tt))
    ]

pub run_update-Alters :
    (k o now : String) (u : Update) (t : Jobs)
    → UniqueKeys t
    → JobsAlter o now t (run_update k o now u t)
unfolding run_update
run_update-Alters k o now (mark_stage stage p next) t keys = mark-Alters k o stage p next now now t
run_update-Alters k o now (record_warning w) t keys = warning-Alters k o w now now t keys
run_update-Alters k o now (record_error e) t keys = error-Alters k o e now now t
run_update-Alters k o now (link_document documents key) t keys =
    link-Alters documents k o key now now t
run_update-Alters k o now complete t keys = finish-Alters k o completed now now t (inl refl)
run_update-Alters k o now (fail e n) t keys =
    finish-Alters k o (failure e n) now now t (inr (inl (e, n, refl)))
run_update-Alters k o now (interrupt e n) t keys =
    finish-Alters k o (interruption e n) now now t (inr (inr (e, n, refl)))

-- The worker on whose behalf a command runs; a creation is nobody's, and `o` stands for it.
abbrev pub actor : String → Op → String
actor o op = coalesce (op_owner op) o

-- Every command changes the table as one statement of its owner at its time does.
pub run_op-Evolves :
    (o : String) (op : Op) (q : JobQueue)
    → UniqueIds q.jobs
    → UniqueKeys q.jobs
    → JobsEvolve (actor o op) (op_now op) q.jobs (run_op op q).jobs
unfolding run_op
run_op-Evolves o (create job at) q ids keys = create-Evolves (Change o at) job at q
run_op-Evolves _ (claim_next l) q ids keys =
    Alters-Evolves (Change l.owner l.now) IsNew q.jobs _ (claim_next-Alters l q.jobs ids)
run_op-Evolves _ (claim k l) q ids keys =
    Alters-Evolves (Change l.owner l.now) IsNew q.jobs _ (claim-Alters k l q.jobs)
run_op-Evolves _ (update k o now u) q ids keys =
    Alters-Evolves (Change o now) IsNew q.jobs _ (run_update-Alters k o now u q.jobs keys)
