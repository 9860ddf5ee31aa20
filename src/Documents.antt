-- ===== src/Documents.antt =====
-- src/store/sqlite.rs: documents with their pages, chunks, search rows and assets.
pub mod Tables
pub mod Write
pub mod Read
pub mod Sorted
pub mod PageRange
pub mod Insert
pub mod Replace
pub mod Columns
pub mod Index
pub mod Upsert
pub mod Invariant
mod Examples
