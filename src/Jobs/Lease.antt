-- ===== src/Jobs/Lease.antt =====
-- A lease excludes the other workers, and finished jobs are left alone.
use foia_search_mcp.Prelude.{
  String, Bool, true, false, ◌||◌, Option, none, some, ◌≡◌, ◌≢◌, ◌⊎◌, inl, inr, arith, Bool-cases,
  is_text, str_eq, eq_iff, ◌∙◌, sym, ap, Evolves-find,
}
use foia_search_mcp.Jobs.Table.{
  succeeded, failed, cancelled, running, JobRow, Jobs, select_job, held_by, status_eq,
  IngestionJobLease,
}
use foia_search_mcp.Jobs.Claim.{claimable_by, lease_expired}
use foia_search_mcp.Jobs.Change.{
  Change, leased, staged, warned, faulted, linked, finished, IsNew, UniqueIds, UniqueKeys,
  JobsEvolve,
}
use foia_search_mcp.Jobs.Create.{JobQueue}
use foia_search_mcp.Jobs.Ops.{Op, create, claim_next, claim, update, run_op, op_owner, op_now}
use foia_search_mcp.Jobs.Evolve.{actor, run_op-Evolves, create-Evolves}

is_text_one : (x : Option String) (a b : String) → is_text x a ≡ true → is_text x b ≡ true → a ≡ b
is_text_one none a b h k = cc
is_text_one (some x) a b h k = sym ((eq_iff x a).0 h) ∙ (eq_iff x b).0 k

-- A row has one holder.
held_by_one : (a b : String) (r : JobRow) → held_by a r ≡ true → held_by b r ≡ true → a ≡ b
held_by_one a b r ha hb = ground (arith, is_text_one r.lease_owner a b)

not_claimable :
    (l : IngestionJobLease) (r : JobRow)
    → ¬ (held_by l.owner r ≡ true)
    → lease_expired l.now r ≡ false
    → status_eq r.status running ≡ true
    → claimable_by l r ≡ false
not_claimable l r no_holder live runs = elim (Bool-cases (held_by l.owner r)) [
  | inl h ↦ absurd (no_holder h)
  | inr h ↦ ground arith
]

-- Nobody else changes a row while its lease runs.
Change-excluded :
    (o other now : String) (r s : JobRow)
    → held_by o r ≡ true
    → lease_expired now r ≡ false
    → other ≢ o
    → ¬ Change other now r s
Change-excluded o other now r s held live ne (leased l n mine at free way e) =
    ground
      (arith, not_claimable l r (rw mine (λ h. ne (held_by_one other o r h held))) (rw at live))
Change-excluded o other now r s held live ne (staged a b c d h p e) =
    ne (held_by_one other o r h held)
Change-excluded o other now r s held live ne (warned w at h p e) = ne (held_by_one other o r h held)
Change-excluded o other now r s held live ne (faulted a b h e) = ne (held_by_one other o r h held)
Change-excluded o other now r s held live ne (linked d at h e) = ne (held_by_one other o r h held)
Change-excluded o other now r s held live ne (finished f at h w e) =
    ne (held_by_one other o r h held)

-- The key of a row never changes.
pub Change-job_key : (o now : String) (r s : JobRow) → Change o now r s → s.job_key ≡ r.job_key
Change-job_key o now r s (leased l n mine at free way e) = rw e
Change-job_key o now r s (staged a b c d h p e) = rw e
Change-job_key o now r s (warned w at h p e) = rw e
Change-job_key o now r s (faulted a b h e) = rw e
Change-job_key o now r s (linked d at h e) = rw e
Change-job_key o now r s (finished f at h w e) = rw e

-- The query for a key finds the row that an evolution leaves in the place of the one found before.
pub select-Evolves :
    (o now : String) (k : String) (t u : Jobs) (r : JobRow)
    → JobsEvolve o now t u
    → select_job k t ≡ some r
    → (s : JobRow) × (select_job k u ≡ some s) × ((r ≡ s) ⊎ Change o now r s)
select-Evolves o now k t u r e found =
    Evolves-find IsNew (Change o now) (λ r. str_eq r.job_key k)
      (λ x y st. ap (λ j. str_eq j k) (Change-job_key o now x y st)) t u r e found

-- A command that can change no row of this kind leaves the one found under the key alone.
pub untouched :
    (o : String) (op : Op) (q : JobQueue) (k : String) (r : JobRow)
    → UniqueIds q.jobs
    → UniqueKeys q.jobs
    → select_job k q.jobs ≡ some r
    → ((s : JobRow) → ¬ Change (actor o op) (op_now op) r s)
    → select_job k (run_op op q).jobs ≡ some r
untouched o op q k r ids keys found never =
    let (s, found', way) =
      select-Evolves (actor o op) (op_now op) k q.jobs (run_op op q).jobs r
        (run_op-Evolves o op q ids keys) found in
    elim way [ inl same ↦ rw same found' | inr st ↦ absurd (never s st) ]

-- While the lease of a running job has not expired, no command of another worker changes its row:
-- whatever the command, the query for the job's key returns the same row after it.
pub lease_excludes :
    (op : Op) (q : JobQueue) (k o : String) (r : JobRow)
    → UniqueIds q.jobs
    → UniqueKeys q.jobs
    → select_job k q.jobs ≡ some r
    → held_by o r ≡ true
    → lease_expired (op_now op) r ≡ false
    → op_owner op ≢ some o
    → select_job k (run_op op q).jobs ≡ some r
lease_excludes (create job at) q k o r ids keys found held live ne =
    let (s, found', way) =
      Evolves-find IsNew (λ _ _. ⊥) (λ r. str_eq r.job_key k) (λ x y st. absurd st) q.jobs _ r
        (create-Evolves (λ _ _. ⊥) job at q) found in
    unfold run_op in elim way [ inl same ↦ rw same found' | inr st ↦ absurd st ]
lease_excludes (claim_next l) q k o r ids keys found held live ne =
    untouched o (claim_next l) q k r ids keys found
      (λ s. Change-excluded o l.owner l.now r s held live (λ e. ne (ap some e)))
lease_excludes (claim j l) q k o r ids keys found held live ne =
    untouched o (claim j l) q k r ids keys found
      (λ s. Change-excluded o l.owner l.now r s held live (λ e. ne (ap some e)))
lease_excludes (update j p now u) q k o r ids keys found held live ne =
    untouched o (update j p now u) q k r ids keys found
      (λ s. Change-excluded o p now r s held live (λ e. ne (ap some e)))

-- A job that has succeeded, failed or been cancelled.
abbrev pub is_finished : JobRow → Bool
is_finished r =
    status_eq r.status succeeded || status_eq r.status failed || status_eq r.status cancelled

Change-unfinished : (o now : String) (r s : JobRow) → is_finished r ≡ true → ¬ Change o now r s
Change-unfinished o now r s done (leased l n mine at free way e) = ground arith
Change-unfinished o now r s done (staged a b c d h p e) = ground arith
Change-unfinished o now r s done (warned w at h p e) = ground arith
Change-unfinished o now r s done (faulted a b h e) = ground arith
Change-unfinished o now r s done (linked d at h e) = ground arith
Change-unfinished o now r s done (finished f at h w e) = ground arith

-- A finished job is final: no command of any worker changes its row.
pub finished_final :
    (op : Op) (q : JobQueue) (k : String) (r : JobRow)
    → UniqueIds q.jobs
    → UniqueKeys q.jobs
    → select_job k q.jobs ≡ some r
    → is_finished r ≡ true
    → select_job k (run_op op q).jobs ≡ some r
finished_final op q k r ids keys found done =
    untouched "" op q k r ids keys found (λ s. Change-unfinished (actor "" op) (op_now op) r s done)
