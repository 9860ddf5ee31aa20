-- ===== src/Index.antt =====
-- src/index/reconcile.rs, src/index/reconcile_repair.rs and src/mcp/fts_repair.rs: the search index
-- compared with the chunks, and repaired from them.
pub mod Reconcile
pub mod Verdict
pub mod Repair
pub mod Surface
pub mod Rewrites
pub mod Canonical
pub mod Repaired
pub mod Again
mod Examples
