-- ===== src/Sync.antt =====
-- The incremental data set cache of
-- runtime/onnx-training/code-snapshot/onprem_runtime/core/dataset_sync.py.
pub mod Grid
pub mod Frame
pub mod Cache
pub mod Consistent
pub mod Complete
pub mod Runs
