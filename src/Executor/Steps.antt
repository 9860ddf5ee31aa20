-- ===== src/Executor/Steps.antt =====
-- What the steps of a run keep: before the ingestion the documents are as they were, and after it
-- the database keeps its invariant.
use foia_search_mcp.Prelude.{String, Bool, true, false, ◌≡◌, refl, arith, Result, ok, err, map_err}
use foia_search_mcp.Store.{StoreError}
use foia_search_mcp.Jobs.Table.{Jobs}
use foia_search_mcp.Documents.Invariant.{DatabaseOk}
use foia_search_mcp.Documents.Tables.{Database}
use foia_search_mcp.Ingest.Pipeline.{extraction}
use foia_search_mcp.Executor.Types.{
  before_asset_provenance_write, ExecutorError, missing_source_adapter, missing_job_locator,
  cancelled_at, asset_size_overflow, SqliteStore,
}
use foia_search_mcp.Executor.Run.{Answer, ◌>>>◌}
use foia_search_mcp.Executor.Held.{Working}

-- What the store satisfies after a step, `P` with its value or `Q` with its error.
unfoldable pub Meets :
    {A : Type 0}
    → (SqliteStore → A → Type 0)
    → (SqliteStore → ExecutorError → Type 0)
    → Answer A
    → Type 0
Meets P Q (s, ok a) = P s a
Meets P Q (s, err e) = Q s e

pub then-Meets :
    {A B : Type 0} (P : SqliteStore → A → Type 0) (R : SqliteStore → B → Type 0)
    (Q : SqliteStore → ExecutorError → Type 0) (m : Answer A) (f : SqliteStore → A → Answer B)
    → Meets P Q m
    → ((s : SqliteStore) (a : A) → P s a → Meets R Q (f s a))
    → Meets R Q (m >>> f)
unfolding Meets ◌>>>◌
then-Meets P R Q (s, ok a) f h g = g s a h
then-Meets P R Q (s, err e) f h g = h

pub ok-Meets :
    {A : Type 0} (P : SqliteStore → A → Type 0) (Q : SqliteStore → ExecutorError → Type 0)
    (s : SqliteStore) (a : A)
    → P s a
    → Meets P Q (s, ok a)
unfolding Meets
ok-Meets P Q s a h = h

-- The errors that end a run before it has written to the documents.
unfoldable pub is_early : ExecutorError → Bool
is_early (ExecutorError.store e) = false
is_early (missing_source_adapter name) = true
is_early (missing_job_locator job_key) = true
is_early (ExecutorError.source e) = true
is_early (ExecutorError.plan e) = true
is_early (ExecutorError.download e) = true
is_early (ExecutorError.ingest (extraction e)) = true
is_early (ExecutorError.ingest e) = false
is_early (asset_size_overflow n) = false
is_early (cancelled_at before_asset_provenance_write) = false
is_early (cancelled_at checkpoint) = true

module _ (k o : String) (t : Jobs) (db : Database) where
  -- Before the ingestion, after it, and at the end of a run that fails.
  pub record Before (s : SqliteStore) : Type 0 where
    pub working : Working k o t s.jobs
    pub untouched : s.database ≡ db

  pub record After (s : SqliteStore) : Type 0 where
    pub working : Working k o t s.jobs
    pub kept : DatabaseOk db → DatabaseOk s.database

  pub record Failed (s : SqliteStore) (e : ExecutorError) : Type 0 where
    pub working : Working k o t s.jobs
    pub kept : DatabaseOk db → DatabaseOk s.database
    pub untouched : is_early e ≡ true → s.database ≡ db

  pub Before-Failed : (s : SqliteStore) (e : ExecutorError) → Before s → Failed s e
  Before-Failed s e h = record {
    working = h.working;
    kept = λ good. rw h.untouched good;
    untouched = λ early. h.untouched;
  }

  pub After-Failed :
      (s : SqliteStore) (e : ExecutorError) → is_early e ≡ false → After s → Failed s e
  After-Failed s e late h = record {
    working = h.working;
    kept = h.kept;
    untouched = λ early. absurd (ground arith);
  }

  -- A step that leaves the documents alone, and then the rest.
  pub early_step :
      {A B : Type 0} (R : SqliteStore → B → Type 0) (m : Answer A) (f : SqliteStore → A → Answer B)
      → Before m.0
      → ((s : SqliteStore) (a : A) → Before s → Meets R Failed (f s a))
      → Meets R Failed (m >>> f)
  unfolding Meets ◌>>>◌
  early_step R (s, ok a) f h g = g s a h
  early_step R (s, err e) f h g = Before-Failed s e h

  -- A step after the ingestion, and then the rest.
  pub late_step :
      {A B : Type 0} (R : SqliteStore → B → Type 0) (m : Answer A) (f : SqliteStore → A → Answer B)
      → After m.0
      → ((e : ExecutorError) → m.1 ≡ err e → is_early e ≡ false)
      → ((s : SqliteStore) (a : A) → After s → Meets R Failed (f s a))
      → Meets R Failed (m >>> f)
  unfolding Meets ◌>>>◌
  late_step R (s, ok a) f h late g = g s a h
  late_step R (s, err e) f h late g = After-Failed s e (late e refl) h

-- The errors of the store come after the ingestion, as far as the run is concerned.
pub store_late :
    {A : Type 0} (r : Result StoreError A) (e : ExecutorError)
    → map_err ExecutorError.store r ≡ err e
    → is_early e ≡ false
unfolding is_early
store_late (ok a) e h = absurd (ground arith)
store_late (err x) e h = ground arith
