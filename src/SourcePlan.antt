-- ===== src/SourcePlan.antt =====
-- src/ingest/source_plan.rs and src/ingest/source_resolution.rs: the record that a source gives, the
-- choice of the asset to ingest, and the document that the record becomes.
pub mod Assets
pub mod Plan
pub mod Selection
mod Examples
