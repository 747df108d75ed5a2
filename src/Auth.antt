-- ===== src/Auth.antt =====
-- Signing in: services/backend/auth.
pub mod Tokens
pub mod Attempts
pub mod Lifecycle
pub mod Runs
