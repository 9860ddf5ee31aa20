-- ===== src/Ingest.antt =====
-- src/ingest/pipeline.rs: the text of a document becomes its row, its pages and its chunks, through
-- the chunking and the store.
pub mod Pipeline
pub mod Stored
pub mod Accepts
pub mod TextFile
mod Examples
