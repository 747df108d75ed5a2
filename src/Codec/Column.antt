-- ===== src/Codec/Column.antt =====
-- `derive_column_dtypes`, `_column_args`, `_build_column` and `compress_blocks` of
-- core/dataset_compression.py. A dataset is a record of what the code reads of the dictionary.
-- SHA-256 is a parameter.
use neuralese.Prelude.{
  ℕ, zero, suc, ◌+◌, ◌-◌, ◌*◌, ◌/◌, min, Option, none, some, List, [], ◌∷◌, ◌++◌, map, eqb, ◌==◌,
  bytes_eq, if◌then◌else◌, length, get_elem?, Result, ok, ◌>>=◌, or_raise,
}
use neuralese.Prelude.Int.{ℤ, pos, negsuc, ltb_ℤ, ◌-ℤ◌}
use neuralese.Python.Values.{Value, Fields, int, object, end, field, get_or}
use neuralese.Python.Hex.{hex}
use neuralese.Codec.Types.{CodecError, index_error, Dtype, Metadata, Header}
use neuralese.Codec.Num.{integer_width, godot_int, choose_block_rows}
use neuralese.Codec.Encode.{encode_block}

pub record Dataset : Type 0 where
  pub arr : List (List Value)
  pub outputs_from : Value
  pub col_names : List (List ℕ)
  pub col_args : List Value

pub record Column : Type 0 where
  pub blocks : List (List ℕ)
  pub hashes : List (List ℕ)
  pub rows_per_block : ℕ
  pub dtype : Dtype

pub record Packet : Type 0 where
  pub header : Header
  pub inputs : List Column
  pub outputs : List Column

-- The part of a name behind its last colon, if it has one: `name.rsplit(":", 1)[1]`.
unfoldable pub suffix : List ℕ → Option (List ℕ)
suffix [] = none
suffix (c ∷ s) = elim (suffix s) [
  | some found ↦ some found
  | none ↦ if eqb c b':' then some s else none
]

abbrev num_name : List ℕ
num_name = b'n' ∷ b'u' ∷ b'm' ∷ []

abbrev float_name : List ℕ
float_name = b'f' ∷ b'l' ∷ b'o' ∷ b'a' ∷ b't' ∷ []

abbrev text_name : List ℕ
text_name = b't' ∷ b'e' ∷ b'x' ∷ b't' ∷ []

abbrev image_name : List ℕ
image_name = b'i' ∷ b'm' ∷ b'a' ∷ b'g' ∷ b'e' ∷ []

unfoldable pub dtype_named : List ℕ → Dtype
dtype_named s =
    if s == num_name
    then Dtype.num
    else if s == float_name
    then Dtype.float
    else if s == text_name
    then Dtype.text
    else if s == image_name
    then Dtype.image
    else Dtype.other

unfoldable pub derive_column_dtypes : List (List ℕ) → List Dtype
derive_column_dtypes [] = []
derive_column_dtypes (name ∷ names) =
    elim (suffix name) [ none ↦ Dtype.text | some s ↦ dtype_named s ] ∷ derive_column_dtypes names

unfoldable pub fields_of : Option Value → Fields
fields_of (some (object fields)) = fields
fields_of _ = end

-- `{}` stands for an argument that is missing or no dictionary.
unfoldable pub column_args : List Value → ℕ → Fields
column_args args column = fields_of (get_elem? args column)

unfoldable pub args_min : Fields → ℤ
args_min args = godot_int (get_or args "min" (int (pos 0)))

unfoldable pub args_max : Fields → ℤ
args_max args = godot_int (get_or args "max" (int (pos 100)))

-- The loop over `block_index`: `count` blocks from block `index` on.
unfoldable pub build_blocks :
    (ℕ → ℕ → Result CodecError (List ℕ)) → ℕ → ℕ → ℕ → ℕ → Result CodecError (List (List ℕ))
build_blocks encode rows rows_per_block index zero = ok []
build_blocks encode rows rows_per_block index (suc count) = do
  let start = index * rows_per_block
  block ← encode start (min (start + rows_per_block) rows)
  rest ← build_blocks encode rows rows_per_block (index + 1) count
  ok (block ∷ rest)

-- `math.ceil(rows / rows_per_block)`
abbrev pub total_blocks : ℕ → ℕ → ℕ
total_blocks rows rows_per_block = (rows + rows_per_block - 1) / rows_per_block

-- `min`, `max` and `bits`, which the metadata of a numeric column has
unfoldable pub num_metadata : ℤ → ℤ → Fields
num_metadata minimum maximum =
    field "min" (int minimum)
      (field "max" (int maximum) (field "bits" (int (pos (integer_width minimum maximum * 8))) end))

unfoldable pub metadata_of : Dtype → Fields → Metadata
metadata_of Dtype.num args = record {
  dtype = Dtype.num;
  entries = num_metadata (args_min args) (args_max args);
}
metadata_of dtype args = record { dtype = dtype; entries = end }

unfoldable pub empty_packet : ℕ → ℤ → ℤ → ℕ → Packet
empty_packet rows inputs outputs rows_per_block =
    let entries = field "rows" (int (pos rows)) (
      field "inputs_count" (int inputs) (
        field "outputs_count" (int outputs) (
          field "rows_per_block" (int (pos rows_per_block))
            (field "dirty_from" (int (negsuc 0)) end)))) in
    let header : Header = record { entries = entries; columns = [] } in
    record { header = header; inputs = []; outputs = [] }

-- The column goes to the inputs if it stands before `outputs_from`; its metadata to the header.
unfoldable pub add_column : Dataset → ℕ → Dtype → Column → Packet → Packet
add_column dataset column dtype encoded packet =
    let is_input = ltb_ℤ (pos column) (godot_int dataset.outputs_from) in
    let meta = metadata_of dtype (column_args dataset.col_args column) in
    record {
      header = record packet.header { columns = packet.header.columns ++ (column, meta) ∷ [] };
      inputs = if is_input then packet.inputs ++ encoded ∷ [] else packet.inputs;
      outputs = if is_input then packet.outputs else packet.outputs ++ encoded ∷ [];
    }

module _ (quantize : Value → ℤ) (repr : Value → List ℕ) (sha256 : List ℕ → List ℕ) where
  unfoldable pub build_column : Dataset → ℕ → Dtype → ℕ → Result CodecError Column
  build_column dataset column dtype rows_per_block = do
    let args = column_args dataset.col_args column
    let minimum = args_min args
    let width = integer_width minimum (args_max args)
    let rows = length dataset.arr
    blocks ←
        build_blocks (encode_block quantize repr dtype dataset.arr column minimum width) rows
          rows_per_block 0 (total_blocks rows rows_per_block)
    ok (record {
      blocks = map hex blocks;
      hashes = map sha256 blocks;
      rows_per_block = rows_per_block;
      dtype = dtype;
    })

  -- The loop over the columns, `count` of them from `column` on.
  unfoldable pub compress_columns :
      Dataset → List Dtype → ℕ → ℕ → ℕ → Packet → Result CodecError Packet
  compress_columns dataset dtypes rows_per_block column zero packet = ok packet
  compress_columns dataset dtypes rows_per_block column (suc count) packet = do
    dtype ← or_raise index_error (get_elem? dtypes column)
    encoded ← build_column dataset column dtype rows_per_block
    compress_columns dataset dtypes rows_per_block (column + 1) count
        (add_column dataset column dtype encoded packet)

  unfoldable pub compress_rows : Dataset → List (List Value) → Result CodecError Packet
  compress_rows dataset [] = ok (empty_packet 0 (pos 0) (pos 0) 256)
  compress_rows dataset (row ∷ rows) =
      let outputs_from = godot_int dataset.outputs_from in
      let columns = length row in
      let rows_per_block = choose_block_rows (length (row ∷ rows)) in
      compress_columns dataset (derive_column_dtypes dataset.col_names) rows_per_block 0 columns (
        empty_packet (length (row ∷ rows)) outputs_from (pos columns -ℤ outputs_from)
          rows_per_block)

  unfoldable pub compress_blocks : Dataset → Result CodecError Packet
  compress_blocks dataset = compress_rows dataset dataset.arr
