-- ===== src/Codec/Types.antt =====
-- The types of core/dataset_compression.py. Its exceptions, one constructor for each message.
use neuralese.Prelude.{ℕ, Dict}
use neuralese.Python.Values.{Fields}

pub data CodecError : Type 0 where
  block_is_empty : CodecError
  unsupported_mode : CodecError
  rle_malformed : CodecError
  rle_count_not_positive : CodecError
  too_few_bytes : CodecError
  too_few_values : CodecError
  invalid_utf8 : CodecError
  not_splittable : CodecError
  zero_step : CodecError
  not_hex : CodecError
  index_error : CodecError
  unsupported_dtype : CodecError
  rows_negative : CodecError
  counts_negative : CodecError
  rows_per_block_not_positive : CodecError
  column_count_mismatch : CodecError
  too_few_rows : CodecError
  text_not_numeric : CodecError

-- The column types that the code tells apart.
pub data Dtype : Type 0 where
  num float text image other : Dtype

-- A column's metadata: its `dtype`, and its other entries.
pub record Metadata : Type 0 where
  pub dtype : Dtype
  pub entries : Fields

-- A packet's header. Its `columns`, keyed by `str(column)`, is keyed by the number itself.
pub record Header : Type 0 where
  pub entries : Fields
  pub columns : Dict ℕ Metadata
