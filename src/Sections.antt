-- ===== src/Sections.antt =====
-- Trained sections of graphs that services/api/nns/sections keeps and reuses.
pub mod Partition
pub mod Chains
pub mod Store
pub mod Match
pub mod Register
pub mod Longest
pub mod Shared
pub mod Apply
pub mod Layers
pub mod Applied
pub mod Sorted
pub mod Fresh
pub mod Covers
pub mod Plans
