-- ===== src/Chunk.antt =====
-- src/ingest/chunk.rs: pages of text grouped into chunks of about `target_tokens` words. `usize`
-- counts of words and pages stay far below 2^64 and are plain numbers.
pub mod Pages
pub mod Groups
pub mod Partition
pub mod Ids
pub mod Ranges
pub mod Accepts
mod Examples
