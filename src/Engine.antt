-- ===== src/Engine.antt =====
-- The training engine of the runtime: core/engine.py, core/jobs.py and core/events.py.
pub mod Jobs
pub mod History
pub mod Cleanup
pub mod Kept
