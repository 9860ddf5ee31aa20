-- ===== src/Redirect.antt =====
-- src/ingest/redirect.rs: the redirects that a download follows. The URL library and the parser of
-- IP literals are operations over the type of URLs, the network is what it answers to the request of
-- each hop, and a run returns the requests it sent besides its result.
pub mod Ip
pub mod Url
pub mod Validate
pub mod Follow
pub mod Ranges
pub mod Accept
pub mod Bounds
pub mod Safety
mod Examples
