-- ===== src/Store.antt =====
-- src/store/sqlite.rs: the errors of the SQLite store, shared by all that keeps rows in it.
use foia_search_mcp.Prelude.{ℕ, String, Chars}

-- `Sqlite` carries the message of the engine's own error.
pub data StoreError : Type 0 where
  sqlite : String → StoreError
  invalid_document_key : String → StoreError
  invalid_json : String → Chars → StoreError
  invalid_ingestion_job_progress : ℕ → StoreError
  invalid_ingestion_job_state : String → String → StoreError
  invalid_page_range : String → StoreError
  missing_document : String → StoreError
  missing_ingestion_job : String → StoreError
  missing_pages : String → ℕ → ℕ → StoreError
