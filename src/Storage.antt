-- ===== src/Storage.antt =====
-- components/storage/: volumes and claims.
pub mod Claims
pub mod Volumes
