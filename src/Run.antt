-- ===== src/Run.antt =====
-- The runs of a graph that services/api/nns/graph_core.py executes page by page.
pub mod Inbox
pub mod Graph
pub mod Full
pub mod Once
