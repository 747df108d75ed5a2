-- ===== src/Axon.antt =====
-- The assistant's rate limiter, services/backend/axon/limits.py.
pub mod Limits
pub mod Windows
