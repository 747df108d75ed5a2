-- ===== src/Storage.antt =====
-- The document storage of the backend: services/backend/storage.
pub mod Paths
pub mod Split
pub mod Database
pub mod Prefix
pub mod Entries
pub mod Written
pub mod Resolve
