-- ===== src/Jobs/Invariant.antt =====
-- What holds of the queue between any two commands.
use foia_search_mcp.Prelude.{
  ℕ, ◌≤◌, ◌<◌, String, Bool, true, false, Option, none, some, ◌≡◌, ◌≢◌, refl, inl, inr, arith, List,
  [], ◌∷◌, ◌++◌, map, any, str_eq, eq_iff, ◌∙◌, sym, All, All-append, Distinct, Distinct-append,
  Evolves-All, Alters-Distinct, Alters-map, Bool-cases,
}
use mathlib.Core.List.{map-append}
use native.Mathlib.Nat.{le_refl}
use foia_search_mcp.Jobs.Table.{queued, running, succeeded, JobRow, Jobs, status_eq}
use foia_search_mcp.Jobs.Change.{
  Change, leased, staged, warned, faulted, linked, finished, IsNew, UniqueIds, UniqueKeys,
  JobsAlter,
}
use foia_search_mcp.Jobs.Update.{set_warnings}
use foia_search_mcp.Jobs.Create.{
  JobQueue, OutboxRow, NewIngestionJob, next_id, create_ingestion_job,
}
use foia_search_mcp.Jobs.Ops.{Op, create, claim_next, claim, update, run_op}
use foia_search_mcp.Jobs.Evolve.{claim_next-Alters, claim-Alters, run_update-Alters}
use foia_search_mcp.Jobs.Lease.{Change-job_key}

abbrev pub is_some {ℓ} : {A : Type ℓ} → Option A → Bool
is_some none = false
is_some (some a) = true

-- A row is leased while it runs and at no other time, was attempted once it has left the queue,
-- keeps its progress within 1.0 and at 1.0 once it has succeeded, and warns of nothing twice.
pub record RowOk (r : JobRow) : Type 0 where
  pub bounded : r.progress ≤ 100
  pub owned : is_some r.lease_owner ≡ status_eq r.status running
  pub timed : is_some r.lease_expires_at ≡ status_eq r.status running
  pub attempted : status_eq r.status queued ≡ false → 0 < r.attempts
  pub full : status_eq r.status succeeded ≡ true → r.progress ≡ 100
  pub warned_once : Distinct (λ w. w) r.warnings

IsNew-RowOk : (r : JobRow) → IsNew r → RowOk r
IsNew-RowOk r (job, i, now, e) = rw e (ground arith)

-- A warning that is not there yet may be added.
fresh_warning :
    (w : String) (ws : List String)
    → any (λ stored. str_eq stored w) ws ≡ false
    → All (λ x. x ≢ w) ws
fresh_warning w [] h = tt
fresh_warning w (x ∷ ws) h = ((λ e. ground (arith, eq_iff x w)), fresh_warning w ws (ground arith))

warned-RowOk :
    (w at : String) (r : JobRow)
    → any (λ stored. str_eq stored w) r.warnings ≡ false
    → RowOk r
    → RowOk (set_warnings (r.warnings ++ w ∷ []) at r)
warned-RowOk w at r new ok = record {
  bounded = ok.bounded;
  owned = ok.owned;
  timed = ok.timed;
  attempted = ok.attempted;
  full = ok.full;
  warned_once =
      Distinct-append (λ w. w) r.warnings w (fresh_warning w r.warnings new) ok.warned_once;
}

pub Change-RowOk : (o now : String) (r s : JobRow) → Change o now r s → RowOk r → RowOk s
Change-RowOk o now r s (leased l n mine at free (inl e') e) ok = rw e (ground arith)
Change-RowOk o now r s (leased l n mine at free (inr (held, e')) e) ok = rw e (ground arith)
Change-RowOk o now r s (staged a b c d h p e) ok = rw e (ground arith)
Change-RowOk o now r s (warned w at h p e) ok = rw e (warned-RowOk w at r p ok)
Change-RowOk o now r s (faulted a b h e) ok = rw e (ground arith)
Change-RowOk o now r s (linked d at h e) ok = rw e (ground arith)
Change-RowOk o now r s (finished f at h (inl e') e) ok = rw (e, e') (ground arith)
Change-RowOk o now r s (finished f at h (inr (inl (a, b, e'))) e) ok = rw (e, e') (ground arith)
Change-RowOk o now r s (finished f at h (inr (inr (a, b, e'))) e) ok = rw (e, e') (ground arith)

Change-id : (o now : String) (r s : JobRow) → Change o now r s → s.id ≡ r.id
Change-id o now r s (leased l n mine at free way e) = rw e
Change-id o now r s (staged a b c d h p e) = rw e
Change-id o now r s (warned w at h p e) = rw e
Change-id o now r s (faulted a b h e) = rw e
Change-id o now r s (linked d at h e) = rw e
Change-id o now r s (finished f at h w e) = rw e

-- The queue as a whole: ids and keys are unique, every row is in order, and the outbox has one
-- message for each job, in the order of their creation.
pub record QueueOk (q : JobQueue) : Type 0 where
  pub ids : UniqueIds q.jobs
  pub keys : UniqueKeys q.jobs
  pub rows : All RowOk q.jobs
  pub announced :
      map (λ (m : OutboxRow). m.job_key) q.outbox ≡ map (λ (r : JobRow). r.job_key) q.jobs

abbrev pub empty_queue : JobQueue
empty_queue = record { jobs = []; outbox = [] }

pub empty-QueueOk : QueueOk empty_queue
empty-QueueOk = record { ids = tt; keys = tt; rows = tt; announced = refl }

next_id_fresh : (t : Jobs) (n : ℕ) → next_id t ≤ n → All (λ r. r.id ≢ n) t
next_id_fresh [] n h = tt
next_id_fresh (r ∷ t) n h = (omega arith, next_id_fresh t n (omega arith))

key_fresh :
    (k : String) (t : Jobs)
    → any (λ (r : JobRow). str_eq r.job_key k) t ≡ false
    → All (λ r. r.job_key ≢ k) t
key_fresh k [] h = tt
key_fresh k (r ∷ t) h = ((λ e. ground (arith, eq_iff r.job_key k)), key_fresh k t (ground arith))

-- What holds of the rows alone.
pub record JobsOk (t : Jobs) : Type 0 where
  pub ids : UniqueIds t
  pub keys : UniqueKeys t
  pub rows : All RowOk t

-- A creation keeps the rows in order.
pub create-JobsOk :
    (job : NewIngestionJob) (at : String) (q : JobQueue)
    → JobsOk q.jobs
    → JobsOk (create_ingestion_job job at q).0.jobs
unfolding create_ingestion_job
create-JobsOk job at q ok =
    elim (Bool-cases (any (λ (r : JobRow). str_eq r.job_key job.job_key) q.jobs)) [
      | inl old ↦ rw old ok
      | inr new ↦ rw new (record {
        ids = Distinct-append _ q.jobs _ (next_id_fresh q.jobs _ (le_refl _)) ok.ids;
        keys = Distinct-append _ q.jobs _ (key_fresh job.job_key q.jobs new) ok.keys;
        rows =
            All-append RowOk q.jobs _ ok.rows (IsNew-RowOk _ (job, next_id q.jobs, at, refl), tt);
      })
    ]

create-announced :
    (job : NewIngestionJob) (at : String) (q : JobQueue)
    → QueueOk q
    → map (λ (m : OutboxRow). m.job_key) (create_ingestion_job job at q).0.outbox
      ≡ map (λ (r : JobRow). r.job_key) (create_ingestion_job job at q).0.jobs
unfolding create_ingestion_job
create-announced job at q ok =
    elim (Bool-cases (any (λ (r : JobRow). str_eq r.job_key job.job_key) q.jobs)) [
      | inl old ↦ rw old ok.announced
      | inr new ↦ rw new (simp (map-append, ok.announced))
    ]

create-QueueOk :
    (job : NewIngestionJob) (at : String) (q : JobQueue)
    → QueueOk q
    → QueueOk (create_ingestion_job job at q).0
create-QueueOk job at q ok =
    let good = create-JobsOk job at q (record { ids = ok.ids; keys = ok.keys; rows = ok.rows }) in
    record {
      ids = good.ids;
      keys = good.keys;
      rows = good.rows;
      announced = create-announced job at q ok;
    }

pub altered-JobsOk : (o now : String) (t u : Jobs) → JobsAlter o now t u → JobsOk t → JobsOk u
altered-JobsOk o now t u e ok = record {
  ids = Alters-Distinct (Change o now) _ (Change-id o now) t u e ok.ids;
  keys = Alters-Distinct (Change o now) _ (Change-job_key o now) t u e ok.keys;
  rows =
      Evolves-All (λ _. ⊥) (Change o now) RowOk (λ r b. absurd b) (Change-RowOk o now) t u e
        ok.rows;
}

-- An operation that inserts nothing keeps the queue in order.
altered-QueueOk :
    (o now : String) (q : JobQueue) (t : Jobs)
    → JobsAlter o now q.jobs t
    → QueueOk q
    → QueueOk (record q { jobs = t })
altered-QueueOk o now q t e ok =
    let good =
      altered-JobsOk o now q.jobs t e (record { ids = ok.ids; keys = ok.keys; rows = ok.rows }) in
    record {
      ids = good.ids;
      keys = good.keys;
      rows = good.rows;
      announced =
          ok.announced ∙ sym (Alters-map (Change o now) _ (Change-job_key o now) q.jobs t e);
    }

-- Every command keeps the queue in order.
pub run_op-QueueOk : (op : Op) (q : JobQueue) → QueueOk q → QueueOk (run_op op q)
unfolding run_op
run_op-QueueOk (create job at) q ok = create-QueueOk job at q ok
run_op-QueueOk (claim_next l) q ok =
    altered-QueueOk l.owner l.now q _ (claim_next-Alters l q.jobs ok.ids) ok
run_op-QueueOk (claim k l) q ok = altered-QueueOk l.owner l.now q _ (claim-Alters k l q.jobs) ok
run_op-QueueOk (update k o now u) q ok =
    altered-QueueOk o now q _ (run_update-Alters k o now u q.jobs ok.keys) ok

abbrev pub run_ops : List Op → JobQueue → JobQueue
run_ops [] q = q
run_ops (op ∷ ops) q = run_ops ops (run_op op q)

run_ops-QueueOk : (ops : List Op) (q : JobQueue) → QueueOk q → QueueOk (run_ops ops q)
run_ops-QueueOk [] q ok = ok
run_ops-QueueOk (op ∷ ops) q ok = run_ops-QueueOk ops (run_op op q) (run_op-QueueOk op q ok)

-- Whatever commands the workers issue, in whatever order, from the empty queue on: ids and keys are
-- unique, a row is leased exactly while it runs, has been attempted once it has left the queue, has
-- progress 1.0 once it has succeeded, holds no warning twice, and the outbox announces each job once,
-- in the order of creation.
pub reachable-QueueOk : (ops : List Op) → QueueOk (run_ops ops empty_queue)
reachable-QueueOk ops = run_ops-QueueOk ops empty_queue empty-QueueOk
