-- ===== src/Summary.antt =====
-- The summary of a graph that services/backend/axon/graph_summary.py writes for the assistant.
pub mod Reach
pub mod Render
pub mod Ends
pub mod Walks
pub mod Complete
