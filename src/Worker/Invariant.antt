-- ===== src/Worker/Invariant.antt =====
-- What the worker leaves in the tables.
use foia_search_mcp.Prelude.{
  String, Bool, false, Option, none, some, List, [], ◌∷◌, any, str_eq, eq_iff, All, All-append,
  All-Memᴰ, All-of-Memᴰ, find-Memᴰ, Result, Result-cases, Bool-cases, inl, inr, ◌≡◌, ◌≢◌, refl, sym,
  ap, ◌∙◌, arith,
}
use foia_search_mcp.Jobs.Table.{JobRow, Jobs, held_by, select_job}
use foia_search_mcp.Jobs.Change.{UniqueKeys}
use foia_search_mcp.Jobs.Create.{NewIngestionJob, create_ingestion_job}
use foia_search_mcp.Jobs.Invariant.{JobsOk, create-JobsOk}
use foia_search_mcp.Documents.Invariant.{DatabaseOk, execute-DatabaseOk}
use foia_search_mcp.Executor.Types.{ExecutorError, ExecutorJobOutcome, SqliteStore, ExecutorEnv}
use foia_search_mcp.Executor.Next.{run_next_with_ocr_and_cancel}
use foia_search_mcp.Executor.Leases.{find-member}
use foia_search_mcp.Executor.Ends.{IsExecution, run_next-IsExecution}
use foia_search_mcp.Worker.Loop.{
  QueuedIngestionWorker, WorkerWorld, Phase, starting, looking, executing, waiting, System, owner,
  worker_env, run_once, worker_step, Event, work, kicked, kick_handle, drop_kick, stop, enqueue,
  statement, happen, happen_all, spawn,
}
use foia_search_mcp.Worker.Handles.{kick-store, handle-store, stop-store}

-- No job is leased to the worker.
abbrev pub Released : Jobs → Type 0
Released t = All (λ r. held_by owner r ≡ false) t

-- The invariants of the queue and of the documents hold, and no job is left behind.
pub record StoreOk (s : SqliteStore) : Type 0 where
  pub queue : JobsOk s.jobs
  pub tables : DatabaseOk s.database
  pub released : Released s.jobs

-- Where the row of one key is released and the others are as before, all are released.
others-Released :
    (k : String) (t u : Jobs) (row : JobRow)
    → UniqueKeys u
    → select_job k u ≡ some row
    → row.lease_owner ≡ none
    → ((k' : String) → k' ≢ k → select_job k' u ≡ select_job k' t)
    → Released t
    → Released u
others-Released k t u row keys found free same old = All-of-Memᴰ u λ r m.
    let here = find-member u r keys m in
    elim (Bool-cases (str_eq r.job_key k)) [
      | inl is_k ↦
          let at : r.job_key ≡ k = (eq_iff r.job_key k).0 is_k in
          let one : r ≡ row = ground (arith, sym here ∙ ap (λ j. select_job j u) at ∙ found) in
          rw (one, free) (ground arith)
      | inr other ↦
          let apart : r.job_key ≢ k = λ e. ground (arith, eq_iff r.job_key k) in
          let before : select_job r.job_key t ≡ some r = sym (same r.job_key apart) ∙ here in
          All-Memᴰ (λ x. held_by owner x ≡ false) t r old
            (find-Memᴰ (λ x. str_eq x.job_key r.job_key) t r before).0
    ]

executed-StoreOk :
    {Url : Type 0} (env : ExecutorEnv Url) (s : SqliteStore)
    (answer : SqliteStore × Result ExecutorError (Option ExecutorJobOutcome))
    → IsExecution env s answer
    → StoreOk s
    → StoreOk answer.0
executed-StoreOk env s (s', r) (inl (idle, same, none_done)) good = rw same good
executed-StoreOk env s (s', r) (inr (job, picked, ran)) good =
    let queue = ran.sound good.queue in
    record {
      queue = queue;
      tables = ran.kept good.tables;
      released =
          others-Released job.job_key s.jobs s'.jobs ran.row queue.keys ran.found ran.released
            ran.others good.released;
    }

created-Released :
    (job : NewIngestionJob) (now : String) (t : Jobs)
    → Released t
    → Released (create_ingestion_job job now (record { jobs = t; outbox = [] })).0.jobs
unfolding create_ingestion_job
created-Released job now t h =
    elim (Bool-cases (any (λ (r : JobRow). str_eq r.job_key job.job_key) t)) [
      | inl old ↦ rw old h
      | inr new ↦ rw new (All-append _ t _ h (refl, tt))
    ]

module _ {Url : Type 0} (w : QueuedIngestionWorker) where
  run_once-StoreOk :
      (cancelled : Bool) (world : WorkerWorld Url) (s : SqliteStore)
      → StoreOk s
      → StoreOk (run_once w cancelled world s).0
  unfolding run_once
  run_once-StoreOk cancelled world s good = elim (Result-cases world.open_store) [
    | inr (e, closed) ↦ rw closed good
    | inl (u, opened) ↦ elim (Result-cases world.executor) [
      | inr (e, failed) ↦ rw (opened, failed) good
      | inl (v, made) ↦
          let env = worker_env w cancelled world.env in
          rw (opened, made)
            (executed-StoreOk env s (run_next_with_ocr_and_cancel env s)
              (run_next-IsExecution env s good.queue.ids good.queue.keys) good)
    ]
  ]

  step-StoreOk :
      (world : WorkerWorld Url) (p : Phase) (s : System)
      → StoreOk s.store
      → StoreOk (worker_step w world p s).store
  unfolding worker_step
  step-StoreOk world starting s h = h
  step-StoreOk world looking s h = h
  step-StoreOk world executing s h = run_once-StoreOk s.cancelled world s.store h
  step-StoreOk world waiting s h = h
  step-StoreOk world Phase.stopped s h = h

  happen-StoreOk : (e : Event Url) (s : System) → StoreOk s.store → StoreOk (happen w e s).store
  unfolding happen
  happen-StoreOk (work world) s h = step-StoreOk world s.phase s h
  happen-StoreOk kicked s h = rw (kick-store s) h
  happen-StoreOk kick_handle s h = rw (handle-store s) h
  happen-StoreOk drop_kick s h = h
  happen-StoreOk stop s h = rw (stop-store s) h
  happen-StoreOk (enqueue job now) s h = record {
    queue = create-JobsOk job now (record { jobs = s.store.jobs; outbox = [] }) h.queue;
    tables = h.tables;
    released = created-Released job now s.store.jobs h.released;
  }
  happen-StoreOk (statement q) s h = record {
    queue = h.queue;
    tables = execute-DatabaseOk q s.store.database h.tables;
    released = h.released;
  }

  -- Over tables that satisfy the invariants of the queue and of the documents and have no job leased
  -- to the worker, whatever the steps of the worker meet and however they interleave with kicks,
  -- stops, new jobs and other statements: the invariants hold after every event, and no job is left
  -- leased to the worker between its runs.
  pub reachable-StoreOk :
      (es : List (Event Url)) (tables : SqliteStore)
      → StoreOk tables
      → StoreOk (happen_all w es (spawn tables)).store
  reachable-StoreOk es tables good = go es (spawn tables) good
    where
      go :
          (es : List (Event Url)) (s : System) → StoreOk s.store → StoreOk (happen_all w es s).store
      go [] s h = h
      go (e ∷ es) s h = go es (happen w e s) (happen-StoreOk e s h)
