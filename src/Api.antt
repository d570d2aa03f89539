-- ===== src/Api.antt =====
-- crates/sdk/src/api.rs: the builders of requests and of an orchestration's metadata.
pub mod Requests
pub mod Metadata
