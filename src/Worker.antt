-- ===== src/Worker.antt =====
-- src/ingest/worker.rs and src/ingest/worker_ocr.rs: the thread that runs the queued jobs, its
-- channel, and the handles that wake and stop it.
pub mod Channel
pub mod Loop
pub mod Shutdown
pub mod Stop
pub mod Handles
pub mod Invariant
mod Examples
