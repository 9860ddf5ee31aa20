-- ===== src/Jobs.antt =====
-- src/ingest/jobs.rs: the durable queue of ingestion jobs, a table that workers lease rows of.
-- Timestamps are texts, compared as SQLite compares them. A progress is counted in hundredths
-- (the program uses 0.0, 0.10, … 1.0), so a negative one and NaN are not represented. The stored
-- JSON list of warnings is the list itself. A call of SQLite's clock is the argument `now`.
pub mod Table
pub mod Claim
pub mod Update
pub mod Create
pub mod Ops
pub mod Change
pub mod Running
pub mod Evolve
pub mod Lease
pub mod Invariant
pub mod Order
pub mod History
pub mod Finish
pub mod Refine
pub mod Warnings
mod Examples
