-- ===== src/Codec/Packet.antt =====
-- `decompress_dataset_packet`, `_decode_packet_side`, `_flatten_feature_values` and
-- `_to_training_value` of core/dataset_compression.py. The JSON shapes that the code checks with
-- `isinstance` are the types here; the header's `columns` is keyed by the column's number.
use neuralese.Prelude.{
  ℕ, zero, suc, ◌+◌, ◌-◌, ◌*◌, min, none, some, List, [], ◌∷◌, ◌++◌, map, eqb, ltb, if◌then◌else◌,
  ◌&&◌, String, length, take, get_elem?, lookup, nat_eq, Result, ok, err, ◌>>=◌, ◌>>◌, require, not,
}
use mathlib.Core.Option
use neuralese.Prelude.Int.{ℤ, pos, pos_part, neg_part, ltb_ℤ}
use neuralese.Python.Values.{Value, int, end, get_or, truthy}
use neuralese.Codec.Types.{
  CodecError, rows_negative, counts_negative, rows_per_block_not_positive, column_count_mismatch,
  too_few_rows, text_not_numeric, Dtype, Metadata, Header,
}
use neuralese.Codec.Column.{Column}
use neuralese.Codec.Num.{godot_int}
use neuralese.Codec.Decode.{
  Decoded, number, over_255, string, image, Block, as_hex, block_bytes, decode_column_block,
}

pub record ColumnData : Type 0 where
  -- what `column.get("rows_per_block")` holds, `null` if it is missing
  pub rows_per_block : Value
  pub blocks : List Block

-- A column that `_build_column` made, as a packet carries it.
unfoldable pub column_data : Column → ColumnData
column_data c = record { rows_per_block = int (pos c.rows_per_block); blocks = map as_hex c.blocks }

abbrev no_metadata : Metadata
no_metadata = record { dtype = Dtype.text; entries = end }

unfoldable pub column_metadata : Header → ℕ → Metadata
column_metadata header column = Option.get_or (lookup column header.columns) no_metadata

unfoldable pub packet_rows_per_block : Header → ColumnData → Result CodecError ℕ
packet_rows_per_block header column = do
  let raw = column.rows_per_block
  let value = if truthy raw then raw else get_or header.entries "rows_per_block" (int (pos 256))
  let rows_per_block = godot_int value
  require (ltb_ℤ (pos 0) rows_per_block) rows_per_block_not_positive
  ok (pos_part rows_per_block)

-- `_packet_column_blocks`
unfoldable pub column_blocks : List Block → Result CodecError (List (List ℕ))
column_blocks [] = ok []
column_blocks (block ∷ blocks) = do
  raw ← block_bytes block
  rest ← column_blocks blocks
  ok (raw ∷ rest)

-- The loop over a column's blocks, from block `index` on.
unfoldable pub decode_blocks :
    List (List ℕ) → Metadata → ℕ → ℕ → ℕ → Result CodecError (List Decoded)
decode_blocks [] metadata rows_per_block rows index = ok []
decode_blocks (block ∷ blocks) metadata rows_per_block rows index = do
  let block_rows = min rows_per_block (rows - index * rows_per_block)
  values ← decode_column_block block metadata.dtype metadata.entries block_rows
  rest ← decode_blocks blocks metadata rows_per_block rows (index + 1)
  ok (values ++ rest)

unfoldable pub decode_column : Header → ℕ → ℕ → ColumnData → Result CodecError (List Decoded)
decode_column header rows column data' = do
  rows_per_block ← packet_rows_per_block header data'
  blocks ← column_blocks data'.blocks
  values ← decode_blocks blocks (column_metadata header column) rows_per_block rows 0
  require (not (ltb (length values) rows)) too_few_rows
  ok (take rows values)

unfoldable pub decode_columns :
    Header → ℕ → ℕ → List ColumnData → Result CodecError (List (List Decoded))
decode_columns header rows column [] = ok []
decode_columns header rows column (data' ∷ rest) = do
  values ← decode_column header rows column data'
  others ← decode_columns header rows (column + 1) rest
  ok (values ∷ others)

unfoldable pub decode_packet_side :
    List ColumnData → Header → ℕ → ℤ → ℕ → Result CodecError (List (List Decoded))
decode_packet_side columns header column_offset expected_columns rows = do
  require (eqb (length columns) (pos_part expected_columns)) column_count_mismatch
  decode_columns header rows column_offset columns

-- A value that the trainer reads: an integer, or a float `k / 255.0`.
pub data Feature : Type 0 where
  whole : ℤ → Feature
  part : ℕ → Feature

pub data Label : Type 0 where
  one : Feature → Label
  many : List Feature → Label

unfoldable pub parts : List ℕ → List Feature
parts [] = []
parts (k ∷ ks) = part k ∷ parts ks

unfoldable pub to_training_value : Decoded → Result CodecError Label
to_training_value (number n) = ok (one (whole n))
to_training_value (over_255 k) = ok (one (part k))
to_training_value (string s) = err text_not_numeric
to_training_value (image ks) = ok (many (parts ks))

abbrev features_of : Label → List Feature
features_of (one f) = f ∷ []
features_of (many fs) = fs

-- `column[row_index] for column in columns`
unfoldable pub row_of : List (List Decoded) → ℕ → List Decoded
row_of [] row = []
row_of (column ∷ columns) row =
    let rest = row_of columns row in elim (get_elem? column row) [ none ↦ rest | some v ↦ v ∷ rest ]

unfoldable pub flatten_feature_values : List Decoded → Result CodecError (List Feature)
flatten_feature_values [] = ok []
flatten_feature_values (value ∷ values) = do
  converted ← to_training_value value
  rest ← flatten_feature_values values
  ok (features_of converted ++ rest)

unfoldable pub label_values : List Decoded → Result CodecError (List Label)
label_values [] = ok []
label_values (value ∷ values) = do
  converted ← to_training_value value
  rest ← label_values values
  ok (converted ∷ rest)

-- `labels[0] if len(labels) == 1 else labels`
pub data Target : Type 0 where
  single : Label → Target
  several : List Label → Target

unfoldable pub target : List Label → Target
target (label ∷ []) = single label
target labels = several labels

-- Rows `row` to `row + count - 1`, each with its features and its labels.
unfoldable pub decode_rows :
    List (List Decoded)
    → List (List Decoded)
    → ℕ
    → ℕ
    → Result CodecError (List (List Feature × Target))
decode_rows inputs outputs row zero = ok []
decode_rows inputs outputs row (suc count) = do
  features ← flatten_feature_values (row_of inputs row)
  labels ← label_values (row_of outputs row)
  rest ← decode_rows inputs outputs (row + 1) count
  ok ((features, target labels) ∷ rest)

unfoldable pub decompress_dataset_packet :
    Header → List ColumnData → List ColumnData → Result CodecError (List (List Feature × Target))
decompress_dataset_packet header inputs outputs = do
  let count = λ (key : String). godot_int (get_or header.entries key (int (pos 0)))
  require (eqb (neg_part (count "rows")) 0) rows_negative
  require (eqb (neg_part (count "inputs_count")) 0 && eqb (neg_part (count "outputs_count")) 0)
      counts_negative
  let rows = pos_part (count "rows")
  input_columns ← decode_packet_side inputs header 0 (count "inputs_count") rows
  output_columns ←
      decode_packet_side outputs header (pos_part (count "inputs_count")) (count "outputs_count")
        rows
  decode_rows input_columns output_columns 0 rows
