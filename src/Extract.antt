-- ===== src/Extract.antt =====
-- src/ingest/pdf.rs, src/ingest/pdf_text.rs and the policy of src/ingest/ocr.rs: the pages of a text
-- file, and the choice between a PDF's embedded text and local OCR. The extractors that run external
-- programs are functions; one that is cancelled answers `cancelled`.
pub mod FormFeed
pub mod Select
pub mod Numbers
pub mod Visible
pub mod Pieces
pub mod Choice
mod Examples
