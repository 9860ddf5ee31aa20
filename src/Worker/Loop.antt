-- ===== src/Worker/Loop.antt =====
-- src/ingest/worker.rs: one iteration of the loop, step by step, and what other threads do between
-- the steps.
use foia_search_mcp.Prelude.{
  ℕ, suc, ◌-◌, ltb, Bool, true, false, ◌&&◌, ◌||◌, if◌then◌else◌, String, Option, none, some, List,
  [], ◌∷◌, Result, ok, err, map_err,
}
use foia_search_mcp.Store.{StoreError}
use foia_search_mcp.Jobs.Create.{NewIngestionJob, create_ingestion_job}
use foia_search_mcp.Documents.Invariant.{Statement, execute}
use foia_search_mcp.Chunk.Pages.{default_options}
use foia_search_mcp.Extract.FormFeed.{ExtractedText, TextExtraction, unavailable_binary}
use foia_search_mcp.Extract.Select.{OcrFallbackPolicy, is_enabled}
use foia_search_mcp.Executor.Types.{
  ExecutorError, ExecutorJobOutcome, SqliteStore, SourceAdapter, ExecutorEnv,
}
use foia_search_mcp.Executor.Next.{run_next_with_ocr_and_cancel}
use foia_search_mcp.Worker.Channel.{
  WorkerCommand, WorkerWait, Channel, send, shutdown_requested, wait_for_next_iteration,
}

pub data OcrBackend : Type 0 where
  none_ ocrmypdf tesseract : OcrBackend

abbrev pub backend_enabled : OcrBackend → Bool
backend_enabled none_ = false
backend_enabled ocrmypdf = true
backend_enabled tesseract = false

abbrev pub effective_ocr_backend : OcrFallbackPolicy → OcrBackend → OcrBackend
effective_ocr_backend policy backend =
    if is_enabled policy && backend_enabled backend then backend else none_

abbrev pub TextExtractor : Type 0
TextExtractor = String → Result TextExtraction ExtractedText

abbrev pub noop_ocr_extractor : TextExtractor
noop_ocr_extractor path = err (unavailable_binary "local-ocr-fallback-disabled")

-- The extractor of the back end; the program that it runs is an operation.
abbrev pub extractor_of : OcrBackend → TextExtractor → TextExtractor
extractor_of ocrmypdf program = program
extractor_of none_ program = noop_ocr_extractor
extractor_of tesseract program = noop_ocr_extractor

abbrev pub worker_ocr_extractor : OcrFallbackPolicy → OcrBackend → TextExtractor → TextExtractor
worker_ocr_extractor policy backend = extractor_of (effective_ocr_backend policy backend)

pub data WorkerError : Type 0 where
  io : String → WorkerError
  store : StoreError → WorkerError
  executor : ExecutorError → WorkerError

pub record QueuedIngestionWorker : Type 0 where
  pub sources : List SourceAdapter
  pub ocr_policy : OcrFallbackPolicy
  pub ocr_backend : OcrBackend

-- What one step of the worker meets outside: whether the runtime starts, whether the store opens,
-- whether an executor can be made, and all that the executor reads. `env.ocr_extractor` is the
-- program of the OCR back end, and `env.is_cancelled` tells where the token is set during the run.
pub record WorkerWorld (Url : Type 0) : Type 0 where
  pub runtime : Result String (Unit {0})
  pub open_store : Result WorkerError (Unit {0})
  pub executor : Result ExecutorError (Unit {0})
  pub env : ExecutorEnv Url

abbrev pub owner : String
owner = "foia-ingest-worker"

-- The executor as the worker builds it. A token that is set stays set.
abbrev pub worker_env :
    {Url : Type 0} → QueuedIngestionWorker → Bool → ExecutorEnv Url → ExecutorEnv Url
worker_env w cancelled env = record env {
  owner = owner;
  sources = w.sources;
  chunk_options = default_options;
  force_download = false;
  ocr_policy = w.ocr_policy;
  ocr_extractor = worker_ocr_extractor w.ocr_policy w.ocr_backend env.ocr_extractor;
  is_cancelled = λ checkpoint. cancelled || env.is_cancelled checkpoint;
}

abbrev with_executor :
    SqliteStore
    → Result ExecutorError (Unit {0})
    → SqliteStore × Result ExecutorError (Option ExecutorJobOutcome)
    → SqliteStore × Result WorkerError (Option ExecutorJobOutcome)
with_executor s (err e) ran = (s, err (WorkerError.executor e))
with_executor s (ok u) ran = (ran.0, map_err WorkerError.executor ran.1)

abbrev with_store :
    SqliteStore
    → Result WorkerError (Unit {0})
    → SqliteStore × Result WorkerError (Option ExecutorJobOutcome)
    → SqliteStore × Result WorkerError (Option ExecutorJobOutcome)
with_store s (err e) ran = (s, err e)
with_store s (ok u) ran = ran

unfoldable pub run_once :
    {Url : Type 0}
    → QueuedIngestionWorker
    → Bool
    → WorkerWorld Url
    → SqliteStore
    → SqliteStore × Result WorkerError (Option ExecutorJobOutcome)
unfolding run_next_with_ocr_and_cancel
run_once w cancelled world s = with_store s world.open_store (
    with_executor s world.executor
      (run_next_with_ocr_and_cancel (worker_env w cancelled world.env) s))

-- Where the thread is in `run_until_shutdown`.
pub data Phase : Type 0 where
  starting looking executing waiting stopped : Phase

-- The worker with its store and its channel, the handle's token and sender, and the number of kick
-- handles.
pub record System : Type 0 where
  pub phase : Phase
  pub channel : Channel
  pub cancelled : Bool
  pub handle_open : Bool
  pub kick_handles : ℕ
  pub store : SqliteStore

-- `break`, or the next part of the loop.
abbrev pub stop_or : Phase → Bool → Phase
stop_or next true = stopped
stop_or next false = next

abbrev pub is_shutdown : WorkerWait → Bool
is_shutdown WorkerWait.kick = false
is_shutdown WorkerWait.shutdown = true
is_shutdown WorkerWait.timeout = false

-- The loop goes on at once after a job that was done, and waits after an idle or a failed run.
abbrev pub phase_after : Result WorkerError (Option ExecutorJobOutcome) → Phase
phase_after (ok (some outcome)) = looking
phase_after (ok none) = waiting
phase_after (err e) = waiting

abbrev phase_started : Result String (Unit {0}) → Phase
phase_started (ok u) = looking
phase_started (err e) = stopped

module _ {Url : Type 0} (w : QueuedIngestionWorker) where
  unfoldable pub worker_step : WorkerWorld Url → Phase → System → System
  unfolding run_once shutdown_requested wait_for_next_iteration
  worker_step world starting s = record s { phase = phase_started world.runtime }
  worker_step world looking s =
      let (channel, stop) = shutdown_requested s.channel in
      record s { phase = stop_or executing stop; channel = channel }
  worker_step world executing s =
      let (tables, result) = run_once w s.cancelled world s.store in
      record s { phase = phase_after result; store = tables }
  worker_step world waiting s =
      let (channel, wait) = wait_for_next_iteration s.channel in
      record s { phase = stop_or looking (is_shutdown wait); channel = channel }
  worker_step world stopped s = s

-- What may happen: a step of the worker, a kick, a kick handle made or dropped, `stop`, a job that is
-- created, or another statement on the tables.
pub data Event (Url : Type 0) : Type 0 where
  work : WorkerWorld Url → Event Url
  kicked : Event Url
  kick_handle : Event Url
  drop_kick : Event Url
  stop : Event Url
  enqueue : NewIngestionJob → String → Event Url
  statement : Statement → Event Url

pub data WorkerKickError : Type 0 where
  stopped : WorkerKickError

abbrev pub is_stopped : Phase → Bool
is_stopped Phase.stopped = true
is_stopped phase = false

-- A message to a receiver that is gone is an error, and lost.
abbrev pub delivered : WorkerCommand → System → System
delivered c s = if is_stopped s.phase then s else record s { channel = send c s.channel }

-- `IngestionWorkerKick::kick`, if there is such a handle.
unfoldable pub kick_worker : System → System × Result WorkerKickError (Unit {0})
kick_worker s = (
  (if ltb 0 s.kick_handles then delivered WorkerCommand.kick s else s),
  (if is_stopped s.phase then err WorkerKickError.stopped else ok tt),
)

abbrev pub connect : System → System
connect s = record s {
  channel = record s.channel { connected = s.handle_open || ltb 0 s.kick_handles };
}

-- `IngestionWorkerHandle::stop` up to the `join`: the token is set, and the sender, if it was not
-- taken before, sends a shutdown and is dropped.
unfoldable pub stop_worker : System → System
stop_worker s =
    let t = record s { cancelled = true } in
    if s.handle_open
    then connect (record (delivered WorkerCommand.shutdown t) { handle_open = false })
    else t

abbrev with_job : NewIngestionJob → String → SqliteStore → SqliteStore
with_job job now s = record s {
  jobs = (create_ingestion_job job now (record { jobs = s.jobs; outbox = [] })).0.jobs;
}

abbrev with_database : Statement → SqliteStore → SqliteStore
with_database q s = record s { database = execute q s.database }

unfoldable pub happen : {Url : Type 0} → QueuedIngestionWorker → Event Url → System → System
unfolding worker_step kick_worker stop_worker
happen w (work world) s = worker_step w world s.phase s
happen w kicked s = (kick_worker s).0
happen w kick_handle s = if s.handle_open then record s { kick_handles = suc s.kick_handles } else s
happen w drop_kick s = connect (record s { kick_handles = s.kick_handles - 1 })
happen w stop s = stop_worker s
happen w (enqueue job now) s = record s { store = with_job job now s.store }
happen w (statement q) s = record s { store = with_database q s.store }

abbrev pub happen_all : {Url : Type 0} → QueuedIngestionWorker → List (Event Url) → System → System
happen_all w [] s = s
happen_all w (e ∷ es) s = happen_all w es (happen w e s)

-- `spawn`, over the tables that there are.
abbrev pub spawn : SqliteStore → System
spawn s = record {
  phase = starting;
  channel = record { pending = []; connected = true };
  cancelled = false;
  handle_open = true;
  kick_handles = 0;
  store = s;
}
