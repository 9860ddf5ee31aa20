-- ===== src/Jobs/Examples.antt =====
-- Runs of the queue, and the theorems at concrete queues.
use foia_search_mcp.Prelude.{
  ◌+◌, ◌≤◌, true, none, some, ◌≡◌, refl, arith, List, [], ◌∷◌, length, eq_iff,
}
use foia_search_mcp.Jobs.Table.{
  queued, succeeded, JobRow, IngestionJobLease, select_job, read_ingestion_job_record,
}
use foia_search_mcp.Jobs.Claim.{
  claimable, take_lease, claim_next_ingestion_job, next_claimable, precedes,
}
use foia_search_mcp.Jobs.Create.{NewIngestionJob, JobQueue, queued_row}
use foia_search_mcp.Jobs.Ops.{Op, create, claim_next, claim, update, mark_stage, complete, run_op}
use foia_search_mcp.Jobs.Lease.{lease_excludes, finished_final}
use foia_search_mcp.Jobs.Invariant.{QueueOk, empty_queue, run_ops, reachable-QueueOk}
use foia_search_mcp.Jobs.Order.{claim_next-some, IsFirst}
use foia_search_mcp.Jobs.History.{◌⟶*◌, run_ops-history}

abbrev cia_job : NewIngestionJob
cia_job = record {
  job_key = "ingest:cia:A";
  operation = "ingest";
  source = "cia";
  source_id = some "A";
  target_url = none;
  next_action = "queued";
}

abbrev nsa_job : NewIngestionJob
nsa_job = record {
  job_key = "ingest:nsa:B";
  operation = "ingest";
  source = "nsa";
  source_id = some "B";
  target_url = none;
  next_action = "queued";
}

abbrev worker_lease : IngestionJobLease
worker_lease = record {
  owner = "foia-ingest-worker";
  now = "2026-01-01T00:00:10.000Z";
  expires_at = "2026-01-01T00:05:10.000Z";
}

abbrev two_jobs : List Op
two_jobs =
    create nsa_job "2026-01-01T00:00:02.000Z" ∷ create cia_job "2026-01-01T00:00:01.000Z" ∷ []

abbrev queued_jobs : JobQueue
queued_jobs = record {
  jobs =
      queued_row nsa_job 1 "2026-01-01T00:00:02.000Z"
      ∷ queued_row cia_job 2 "2026-01-01T00:00:01.000Z"
      ∷ [];
  outbox = (run_ops two_jobs empty_queue).outbox;
}

two_jobs_run : (run_ops two_jobs empty_queue).jobs ≡ queued_jobs.jobs
unfolding run_op
two_jobs_run = refl

queued_jobs-QueueOk : QueueOk queued_jobs
unfolding run_op
queued_jobs-QueueOk = reachable-QueueOk two_jobs

-- The older job is taken first.
abbrev cia_running : JobRow
cia_running = take_lease worker_lease 1 (queued_row cia_job 2 "2026-01-01T00:00:01.000Z")

abbrev busy_queue : JobQueue
busy_queue = record queued_jobs {
  jobs = queued_row nsa_job 1 "2026-01-01T00:00:02.000Z" ∷ cia_running ∷ [];
}

claim_takes_older : run_op (claim_next worker_lease) queued_jobs ≡ busy_queue
unfolding run_op next_claimable precedes
claim_takes_older = refl

busy_queue-QueueOk : QueueOk busy_queue
unfolding run_op next_claimable precedes
busy_queue-QueueOk = reachable-QueueOk (
    create nsa_job "2026-01-01T00:00:02.000Z"
    ∷ create cia_job "2026-01-01T00:00:01.000Z"
    ∷ claim_next worker_lease
    ∷ [])

abbrev other_lease : IngestionJobLease
other_lease = record {
  owner = "other";
  now = "2026-01-01T00:01:00.000Z";
  expires_at = "2026-01-01T00:06:00.000Z";
}

lease_excludes_example :
    select_job "ingest:cia:A" (run_op (claim "ingest:cia:A" other_lease) busy_queue).jobs
    ≡ some cia_running
lease_excludes_example =
    lease_excludes (claim "ingest:cia:A" other_lease) busy_queue "ingest:cia:A" "foia-ingest-worker"
      cia_running busy_queue-QueueOk.ids busy_queue-QueueOk.keys refl refl refl
      (λ e. ground (arith, eq_iff "other" "foia-ingest-worker"))

abbrev worked : List Op
worked =
    claim_next worker_lease
    ∷ update "ingest:cia:A" "foia-ingest-worker" "t1" (mark_stage "planning_ingestion" 20 none)
    ∷ update "ingest:cia:A" "foia-ingest-worker" "t2" complete
    ∷ []

reachable-QueueOk_example : QueueOk (run_ops worked empty_queue)
reachable-QueueOk_example = reachable-QueueOk worked

abbrev done_row : JobRow
done_row = record cia_running {
  status = succeeded;
  stage = "succeeded";
  progress = 100;
  lease_owner = none;
  lease_expires_at = none;
  error = none;
  next_action = some "Ingestion completed; local search index is ready.";
  updated_at = "t2";
}

abbrev done_queue : JobQueue
done_queue = record queued_jobs {
  jobs = queued_row nsa_job 1 "2026-01-01T00:00:02.000Z" ∷ done_row ∷ [];
}

worked_done : run_ops worked queued_jobs ≡ done_queue
unfolding run_op next_claimable precedes
worked_done = refl

done_queue-QueueOk : QueueOk done_queue
unfolding run_op next_claimable precedes
done_queue-QueueOk =
    reachable-QueueOk (
      create nsa_job "2026-01-01T00:00:02.000Z"
      ∷ create cia_job "2026-01-01T00:00:01.000Z"
      ∷ worked)

finished_final_example :
    select_job "ingest:cia:A" (run_op (claim "ingest:cia:A" other_lease) done_queue).jobs
    ≡ some done_row
finished_final_example =
    finished_final (claim "ingest:cia:A" other_lease) done_queue "ingest:cia:A" done_row
      done_queue-QueueOk.ids done_queue-QueueOk.keys refl refl

claim_next-some_example :
    (r : JobRow) × (select_job "ingest:cia:A" queued_jobs.jobs ≡ some r)
    × (claimable worker_lease.now r ≡ true)
    × IsFirst worker_lease.now queued_jobs.jobs r
    × (select_job "ingest:cia:A" (claim_next_ingestion_job worker_lease queued_jobs.jobs).0
        ≡ some (take_lease worker_lease (r.attempts + 1) r))
    × (read_ingestion_job_record cia_running
        ≡ read_ingestion_job_record (take_lease worker_lease (r.attempts + 1) r))
unfolding claim_next_ingestion_job next_claimable precedes
claim_next-some_example =
    claim_next-some worker_lease queued_jobs.jobs (read_ingestion_job_record cia_running)
      queued_jobs-QueueOk.ids queued_jobs-QueueOk.keys refl

run_ops-history_example :
    (s : JobRow) × (select_job "ingest:cia:A" (run_ops worked queued_jobs).jobs ≡ some s)
    × (queued ⟶* s.status)
    × (0 ≤ s.progress)
    × (0 ≤ s.attempts)
    × (s.attempts ≤ 0 + length worked)
run_ops-history_example =
    run_ops-history worked queued_jobs "ingest:cia:A"
      (queued_row cia_job 2 "2026-01-01T00:00:01.000Z") queued_jobs-QueueOk refl
