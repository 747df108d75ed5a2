-- ===== src/Topo.antt =====
-- The plan of a graph that services/api/nns/topofuse/plan.py compiles.
pub mod Compare
pub mod Graph
pub mod Labels
pub mod Sort
pub mod Sound
pub mod Order
pub mod Ends
pub mod Plan
pub mod Extract
pub mod Forward
pub mod Fuel
