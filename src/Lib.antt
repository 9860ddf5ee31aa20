-- ===== src/Lib.antt =====
-- The core of foia-search-mcp, a server that finds declassified documents in public archives,
-- downloads them, stores their text in SQLite and makes it searchable.
--
-- The parts and how they interact. A request to ingest a document becomes a row of the job queue.
-- A worker leases the row, resolves its record at the source, downloads the asset that the plan
-- selects, extracts its text, and hands the text to the pipeline, which cuts it into chunks and
-- writes the document, its pages, its chunks and their search rows into the store. A download
-- follows redirects under a policy and goes through the HTTP cache. Page texts are read back from
-- the store. The worker is a thread that other threads wake and stop through a channel. A tool
-- compares the search rows with the chunks, and writes them anew where they differ. Another reports
-- which of the text files that are derived from the pages are missing, stale or left over.
--
--   Prelude      names of the libraries, and lemmas on lists, tables, options, results and texts
--   Store        src/store/sqlite.rs: `StoreError`
--   Jobs         src/ingest/jobs.rs and `create_ingestion_job` of src/store/sqlite.rs: the queue
--   Chunk        src/ingest/chunk.rs: `chunk_pages`
--   Cache        src/store/cache.rs: `put` and `get` of the HTTP cache
--   Redirect     src/ingest/redirect.rs: `send_with_redirects` and the checks of its targets
--   Download     src/ingest/download.rs, src/ingest/download_persist.rs: `download`
--   Documents    src/store/sqlite.rs: documents, pages, chunks, search rows and assets
--   Extract      src/ingest/pdf.rs, src/ingest/pdf_text.rs: text files and the choice of a PDF's text
--   SourcePlan   src/ingest/source_plan.rs: the asset of a record and the document it becomes
--   Ingest       src/ingest/pipeline.rs: `ingest_extracted_text`, `ingest_text_file`
--   Executor     src/ingest/executor.rs, src/ingest/cancel.rs: one job, from its claim to its end
--   Worker       src/ingest/worker.rs, src/ingest/worker_ocr.rs: the thread that runs the jobs, and
--                the handles that wake and stop it
--   Index        src/index/reconcile.rs, src/index/reconcile_repair.rs, src/mcp/fts_repair.rs: the
--                search index compared with the chunks, and repaired
--   Artifacts    src/ingest/reconcile.rs, src/ingest/reconcile_compare.rs,
--                src/ingest/reconcile_repair.rs: the text files that are derived from the stored
--                pages, compared with them, and the plan of their repairs
--
-- How the code is modelled. A table is a list of its rows in the order of their ids, a statement a
-- function of it: UPDATE and DELETE with a WHERE are `update_where` and `delete_where`, and a
-- constraint of src/store/migrations/001_initial.sql is a test whose failure is SQLite's error and
-- leaves the table alone. A method on `&self` or `&mut self` takes the tables and returns them with
-- its `Result`. A transaction that fails returns the tables it started with. Texts that are only
-- compared or joined are `String`; texts that are inspected are `Chars`, lists of code points or
-- bytes. Progress is counted in hundredths. What reads the clock takes the time as an argument.
--
-- Bounds and fuel. Every loop but one is structural recursion: the one that reads a file in blocks
-- has as its fuel the length of what is expected, of which a block takes at least one byte. The loop
-- over redirects counts its hops as the source does, from 0 to `max_hops`, and has no other fuel.
-- The endless loop of the worker is taken step by step, in a list of events that is as long as one
-- likes. `i64::try_from`, `as u32` and the limits on sizes are written out; counts of words, pages
-- and rows in memory are plain numbers.
--
-- Parameters. The network (the answer to a request), the file system and the blob store, SHA-256,
-- the writer of JSON, the URL library and the parser of IP literals are operations of the records
-- `UrlApi` and `DownloadEnv`. The adapters of the sources, the extractors that run programs, the
-- clock and the signal of cancellation are fields of `ExecutorEnv`. Nothing is assumed of them
-- unless a theorem says so. The files that are derived from documents are a list of what stands at
-- each path, the encoding of a text as UTF-8 is the argument
-- `as_bytes`, and `display` shows a path in the text of an error.
--
-- Not modelled: failures of the SQLite engine or its file besides the constraints, the migration
-- runner, the ranking of FTS5, external programs that extract text, the scrapers of the sources,
-- the other handlers of the MCP tools, the writing of repaired files, and the process's start and
-- configuration. Other threads do not write between the statements of one run of the executor, and
-- may do so between any two runs; a worker is stopped between two runs, and a stop
-- that comes while one is under way is not modelled. A new row of `documents` or of the queue has the
-- id behind the greatest one, where AUTOINCREMENT may leave ids out.
pub mod Prelude
pub mod Store
pub mod Jobs
pub mod Chunk
pub mod Cache
pub mod Redirect
pub mod Download
pub mod Documents
pub mod Extract
pub mod SourcePlan
pub mod Executor
pub mod Index
pub mod Worker
pub mod Artifacts
pub mod Ingest
