-- ===== src/Tests/Codec.antt =====
-- Columns and blocks of core/dataset_compression.py.
use neuralese.Prelude.{ℕ, ◌+◌, ◌^◌, ◌<◌, ◌≤◌, ◌≡◌, refl, List, [], ◌∷◌, map, length, All, ok, arith}
use neuralese.Prelude.Int.{pos, ◌-ℤ◌, pos_part}
use neuralese.Python.Values.{Value, object, field, end, int, get_or, get?, to_int}
use neuralese.Codec.Types.{Dtype, Header}
use neuralese.Codec.Rle.{
  rle_encode, rle_loop, rle_decode, adaptive_block, decode_adaptive_block, rle_decode-rle_encode,
  decode_adaptive_block-adaptive_block, length-adaptive_block-le,
}
use neuralese.Codec.Num.{integer_width, stored, restored, restored-stored, godot_int, cell_num}
use neuralese.Codec.Column.{
  Dataset, Column, build_column, column_args, metadata_of, args_min, args_max, fields_of,
}
use neuralese.Codec.Decode.{number}
use neuralese.Codec.Packet.{column_data, decode_column, column_metadata}
use neuralese.Codec.RoundTrip.{num_at, InRange}
use neuralese.Codec.ColumnRoundTrip.{upper, lower, decode_column-build_column}
use neuralese.Python.Bytes.{to_bytes}

abbrev raw_bytes : List ℕ
raw_bytes = 7 ∷ 7 ∷ 7 ∷ 7 ∷ 9 ∷ []

rle_decode-rle_encode_example : rle_decode (rle_encode raw_bytes) ≡ ok raw_bytes
rle_decode-rle_encode_example = rle_decode-rle_encode raw_bytes

rle_encode_example : rle_encode raw_bytes ≡ 0 ∷ 4 ∷ 7 ∷ 0 ∷ 1 ∷ 9 ∷ []
unfolding rle_encode rle_loop
rle_encode_example = refl

decode_adaptive_block-adaptive_block_example :
    decode_adaptive_block (adaptive_block raw_bytes) ≡ ok raw_bytes
decode_adaptive_block-adaptive_block_example = decode_adaptive_block-adaptive_block raw_bytes

length-adaptive_block-le_example : length (adaptive_block raw_bytes) ≤ 1 + length raw_bytes
length-adaptive_block-le_example = length-adaptive_block-le raw_bytes

restored-stored_example :
    restored (pos 10) (
      to_bytes
        (integer_width (pos 10) (pos 900))
        (stored (pos 10) (integer_width (pos 10) (pos 900)) (pos 500)))
    ≡ pos 500
restored-stored_example =
    restored-stored (pos 10) (pos 900) (pos 500) (omega arith) (omega arith)
      (unfold ◌-ℤ◌ in omega arith)

abbrev person : ℕ → List Value
person age = object (field "num" (int (pos age)) end) ∷ []

abbrev people : Dataset
people = record {
  arr = person 30 ∷ person 300 ∷ person 17 ∷ [];
  outputs_from = int (pos 1);
  col_names = [];
  col_args = object (field "min" (int (pos 10)) (field "max" (int (pos 900)) end)) ∷ [];
}

abbrev people_header : Header
people_header = record {
  entries = end;
  columns = (0, metadata_of Dtype.num (column_args people.col_args 0)) ∷ [];
}

people_fit : pos_part (upper people 0 -ℤ lower people 0) < 2 ^ 32
unfolding column_args fields_of args_min args_max godot_int get_or get? to_int ◌-ℤ◌
people_fit = omega arith

people-InRange : All (InRange (lower people 0) (upper people 0) 0) people.arr
unfolding column_args fields_of args_min args_max godot_int get_or get? to_int cell_num
people-InRange = (
  (_, refl, omega arith, omega arith),
  ((_, refl, omega arith, omega arith), ((_, refl, omega arith, omega arith), tt)),
)

people_metadata :
    column_metadata people_header 0 ≡ metadata_of Dtype.num (column_args people.col_args 0)
unfolding column_metadata
people_metadata = refl

decode_column-build_column_example :
    (c : Column) × (build_column (λ v. pos 0) (λ v. []) (λ bytes. bytes) people 0 Dtype.num 2
      ≡ ok c)
    × (decode_column people_header 3 0 (column_data c)
        ≡ ok (map (λ row. number (num_at 0 row)) people.arr))
decode_column-build_column_example =
    decode_column-build_column (λ v. pos 0) (λ v. []) (λ bytes. bytes) people 0 2 people_header
      (omega arith) people_fit people-InRange people_metadata
