-- ===== src/Artifacts.antt =====
-- src/ingest/reconcile.rs, src/ingest/reconcile_compare.rs and src/ingest/reconcile_repair.rs: the
-- files that are derived from the page texts, compared with them, and the repairs they need.
pub mod Files
pub mod Compare
pub mod Blocks
pub mod Rendered
pub mod Report
pub mod Clean
pub mod Exact
pub mod Repair
pub mod Actions
pub mod Covered
pub mod Wanted
mod Examples
