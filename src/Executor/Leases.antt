-- ===== src/Executor/Leases.antt =====
-- The claim that begins a run and the statement that ends it, on the row of the job.
use foia_search_mcp.Prelude.{
  ◌+◌, String, false, none, some, [], ◌∷◌, ◌≡◌, ◌≢◌, refl, inl, inr, arith, ◌∙◌, ap, sym, str_eq,
  eq_iff, eq_refl, ==_iff, update_where, find-update_where, find-Memᴰ, All-Memᴰ, Distinct-eq,
  Bool-cases, Option-cases, ok, ◌==◌,
}
use mathlib.Core.List.{Memᴰ}
use foia_search_mcp.Jobs.Table.{
  JobRow, Jobs, IngestionJobLease, select_job, held_job, running, status_eq,
  read_ingestion_job_record, get_ingestion_job_record,
}
use foia_search_mcp.Jobs.Claim.{next_claimable, take_lease, claim_next_ingestion_job}
use foia_search_mcp.Jobs.Change.{UniqueIds, UniqueKeys, next_claimable-Memᴰ}
use foia_search_mcp.Jobs.Update.{FinishedJob, set_finished, finish_ingestion_job}
use foia_search_mcp.Jobs.Refine.{select-held}
use foia_search_mcp.Jobs.Finish.{finish-refines}
use foia_search_mcp.Jobs.Evolve.{claim_next-Alters}
use foia_search_mcp.Jobs.Invariant.{altered-JobsOk}
use foia_search_mcp.Executor.Types.{}
use foia_search_mcp.Executor.Next.{}
use foia_search_mcp.Executor.Held.{Holding, Working, select-others}

-- A job in the table is found under its key.
pub find-member :
    (t : Jobs) (r : JobRow) → UniqueKeys t → Memᴰ r t → select_job r.job_key t ≡ some r
find-member [] r keys m = elim m [ ]
find-member (x ∷ t) r keys (Memᴰ.head e) = rw e (ground (arith, eq_refl x.job_key))
find-member (x ∷ t) r keys (Memᴰ.tail m) =
    let differs = All-Memᴰ (λ (y : JobRow). y.job_key ≢ x.job_key) t r keys.0 m in
    elim (Bool-cases (str_eq x.job_key r.job_key)) [
      | inl same ↦ absurd (differs (sym ((eq_iff x.job_key r.job_key).0 same)))
      | inr other ↦ rw other (find-member t r keys.1 m)
    ]

-- A claim makes the worker the holder of the row that it picks, and touches no other.
claimed-Holding :
    (l : IngestionJobLease) (t : Jobs) (r : JobRow)
    → UniqueIds t
    → UniqueKeys t
    → next_claimable l.now t ≡ some r
    → Holding r.job_key l.owner t
        (update_where (λ x. x.id == r.id) (λ x. take_lease l (x.attempts + 1) x) t)
claimed-Holding l t r ids keys picked =
    let (m, free) = next_claimable-Memᴰ l.now t r picked in
    let lookup = λ (k : String).
      find-update_where (λ x. str_eq x.job_key k) (λ (x : JobRow). x.id == r.id)
        (λ x. take_lease l (x.attempts + 1) x) t (λ x. refl) in
    record {
      row = take_lease l (r.attempts + 1) r;
      found = lookup r.job_key ∙ rw (find-member t r keys m) (ground arith);
      held = ground (arith, eq_refl l.owner);
      others = λ k' ne. lookup k' ∙ elim (Option-cases (select_job k' t)) [
        | inl gone ↦ rw gone refl
        | inr (x, found) ↦
            let (mx, is_k') = find-Memᴰ (λ x. str_eq x.job_key k') t x found in
            rw found (elim (Bool-cases (x.id == r.id)) [
              | inr miss ↦ rw miss refl
              | inl same ↦ absurd (
                  ne (
                    sym ((eq_iff x.job_key k').0 is_k')
                    ∙ ap (λ y. y.job_key)
                        (Distinct-eq _ t x r ids mx m ((==_iff x.id r.id).0 same))))
            ])
      ];
    }

pub claim_next-idle :
    (l : IngestionJobLease) (t : Jobs)
    → next_claimable l.now t ≡ none
    → claim_next_ingestion_job l t ≡ (t, ok none)
unfolding claim_next_ingestion_job
claim_next-idle l t idle = rw (claim_next_ingestion_job, idle) refl

pub claim_next-picked :
    (l : IngestionJobLease) (t : Jobs) (r : JobRow)
    → next_claimable l.now t ≡ some r
    → claim_next_ingestion_job l t ≡ (
      update_where (λ x. x.id == r.id) (λ x. take_lease l (x.attempts + 1) x) t,
      ok (some (read_ingestion_job_record (take_lease l (r.attempts + 1) r))),
    )
unfolding claim_next_ingestion_job
claim_next-picked l t r picked = rw (claim_next_ingestion_job, picked) refl

pub claimed-Working :
    (l : IngestionJobLease) (t : Jobs) (r : JobRow)
    → UniqueIds t
    → UniqueKeys t
    → next_claimable l.now t ≡ some r
    → Working r.job_key l.owner t
        (update_where (λ x. x.id == r.id) (λ x. take_lease l (x.attempts + 1) x) t)
claimed-Working l t r ids keys picked = record {
  holding = claimed-Holding l t r ids keys picked;
  sound = λ ok. rw (claim_next-picked l t r picked) at (
      altered-JobsOk l.owner l.now t (claim_next_ingestion_job l t).0 (claim_next-Alters l t ids)
        ok);
}

module _ (k o : String) (f : FinishedJob) (now : String) (t u : Jobs) where
  -- The holder of a job can finish it.
  finish_held :
      (w : Holding k o t u)
      → status_eq running f.status ≡ false
      → (finish_ingestion_job k o f now u).0 ≡ update_where (held_job k o) (set_finished f now) u
  unfolding finish_ingestion_job get_ingestion_job_record
  finish_held w ends =
      let other : status_eq w.row.status f.status ≡ false = ground (arith, w.held) in
      rw (w.found, finish_ingestion_job, get_ingestion_job_record, other) refl

  pub finish_held-found :
      (w : Holding k o t u)
      → status_eq running f.status ≡ false
      → select_job k (finish_ingestion_job k o f now u).0 ≡ some (set_finished f now w.row)
  finish_held-found w ends =
      rw (finish_held w ends)
        (select-held k o (set_finished f now) u w.row (λ r. refl) w.found ∙ rw w.held refl)

  pub finish_held-others :
      (w : Holding k o t u)
      → status_eq running f.status ≡ false
      → (k' : String) → k' ≢ k
      → select_job k' (finish_ingestion_job k o f now u).0 ≡ select_job k' t
  finish_held-others w ends k' ne =
      rw (finish_held w ends)
        (select-others k o k' (set_finished f now) u (λ r. refl) ne ∙ w.others k' ne)

  -- The holder is given the finished row.
  pub finish_held-ok :
      (w : Holding k o t u)
      → status_eq running f.status ≡ false
      → (finish_ingestion_job k o f now u).1
        ≡ ok (read_ingestion_job_record (set_finished f now w.row))
  finish_held-ok w ends =
      let other : status_eq w.row.status f.status ≡ false = ground (arith, w.held) in
      ap (λ p. p.1) (finish-refines k o f now u) ∙ rw (w.found, other, w.held) refl
