-- ===== src/Download.antt =====
-- src/ingest/download.rs and src/ingest/download_persist.rs: the download of one asset, through the
-- redirects and the HTTP cache. The network, the file system, SHA-256 and the JSON library are
-- operations of `DownloadEnv`.
pub mod Types
pub mod Persist
pub mod Http
pub mod Body
pub mod Stored
pub mod Reuse
pub mod Examples
