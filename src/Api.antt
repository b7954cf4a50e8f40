-- ===== src/Api.antt =====
-- src/api/: the request bodies of the API server.
pub mod Json
pub mod Merge
pub mod Proto
