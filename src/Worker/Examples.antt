-- ===== src/Worker/Examples.antt =====
-- A worker without sources, which is given one job and then stopped.
use foia_search_mcp.Prelude.{none, some, List, [], ◌∷◌, ◌≡◌, refl, Chars, arith, ok}
use foia_search_mcp.Jobs.Create.{NewIngestionJob}
use foia_search_mcp.Documents.Invariant.{empty_database, reachable-DatabaseOk}
use foia_search_mcp.Extract.Select.{off}
use foia_search_mcp.Executor.Types.{SqliteStore}
use foia_search_mcp.Executor.Examples.{worker}
use foia_search_mcp.Worker.Loop.{
  QueuedIngestionWorker, WorkerWorld, Phase, executing, none_, Event, work, kicked, kick_handle,
  enqueue, stop_worker, happen, happen_all, spawn,
}
use foia_search_mcp.Worker.Stop.{stop-ends}
use foia_search_mcp.Worker.Invariant.{StoreOk, reachable-StoreOk}

abbrev idle_worker : QueuedIngestionWorker
idle_worker = record { sources = []; ocr_policy = off; ocr_backend = none_ }

abbrev world : WorkerWorld Chars
world = record { runtime = ok tt; open_store = ok tt; executor = ok tt; env = worker }

abbrev job : NewIngestionJob
job = record {
  job_key = "ingest:cia:A";
  operation = "ingest";
  source = "cia";
  source_id = some "A";
  target_url = none;
  next_action = "queued";
}

abbrev tables : SqliteStore
tables = record { jobs = []; cache = []; database = empty_database }

tables-StoreOk : StoreOk tables
tables-StoreOk = record {
  queue = record { ids = tt; keys = tt; rows = tt };
  tables = reachable-DatabaseOk [];
  released = tt;
}

abbrev step : Event Chars
step = work world

abbrev events : List (Event Chars)
events = kick_handle ∷ enqueue job "t0" ∷ kicked ∷ step ∷ step ∷ []

runs_the_job : (happen_all idle_worker events (spawn tables)).phase ≡ executing
unfolding happen
runs_the_job = refl

stop-ends_example :
    (happen_all idle_worker
      (step ∷ kicked ∷ step ∷ step ∷ [])
      (stop_worker (happen_all idle_worker events (spawn tables)))).phase
    ≡ Phase.stopped
stop-ends_example =
    stop-ends idle_worker tables events (step ∷ kicked ∷ step ∷ step ∷ []) (omega arith)

reachable-StoreOk_example : StoreOk (happen_all idle_worker (step ∷ events) (spawn tables)).store
reachable-StoreOk_example = reachable-StoreOk idle_worker (step ∷ events) tables tables-StoreOk
