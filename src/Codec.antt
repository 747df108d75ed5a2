-- ===== src/Codec.antt =====
-- The block codec of runtime/onnx-training/code-snapshot/onprem_runtime/core/dataset_compression.py.
-- A byte string is a list of numbers.
pub mod Types
pub mod Rle
pub mod Num
pub mod Encode
pub mod Column
pub mod Decode
pub mod Packet
pub mod RoundTrip
pub mod ColumnRoundTrip
