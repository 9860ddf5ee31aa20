-- ===== src/Executor.antt =====
-- src/ingest/executor.rs, src/ingest/executor_async.rs, src/ingest/source_resolution.rs and
-- src/ingest/cancel.rs: one job of the queue, from its claim to its end.
pub mod Types
pub mod Run
pub mod Next
pub mod Held
pub mod Steps
pub mod Ingestion
pub mod Phases
pub mod Leases
pub mod Ends
pub mod Examples
