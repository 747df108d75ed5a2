-- ===== src/Codec/Decode.antt =====
-- The decoding of one block in core/dataset_compression.py: `_packet_block_bytes`,
-- `_decode_column_block` and the decoder of each column type. The float `value / 255.0` is kept as
-- its numerator.
use neuralese.Prelude.{
  ℕ, zero, suc, ◌*◌, ◌/◌, ◌%◌, ◌||◌, List, [], ◌∷◌, ◌++◌, map, eqb, ltb, if◌then◌else◌, length,
  take, drop, Result, ok, err, ◌>>=◌, ◌>>◌, require, or_raise, not,
}
use neuralese.Prelude.Int.{ℤ, pos, pos_part}
use neuralese.Python.Values.{Fields, int, get_or}
use neuralese.Python.Hex.{from_hex}
use neuralese.Python.Utf8.{is_utf8}
use neuralese.Codec.Types.{
  CodecError, not_hex, too_few_bytes, too_few_values, invalid_utf8, not_splittable, zero_step,
  unsupported_dtype, Dtype,
}
use neuralese.Codec.Rle.{decode_adaptive_block}
use neuralese.Codec.Num.{godot_int, integer_width, restored}

-- A cell that a block holds.
pub data Decoded : Type 0 where
  number : ℤ → Decoded
  over_255 : ℕ → Decoded
  string : List ℕ → Decoded
  image : List ℕ → Decoded

-- A block comes as bytes or in hexadecimal.
pub data Block : Type 0 where
  as_bytes as_hex : List ℕ → Block

unfoldable pub block_bytes : Block → Result CodecError (List ℕ)
block_bytes (as_bytes b) = ok b
block_bytes (as_hex s) = or_raise not_hex (from_hex s)

-- `raw[index : index + width]` for each multiple of `width`, `count` of them.
unfoldable pub chunks : ℕ → ℕ → List ℕ → List (List ℕ)
chunks zero width raw = []
chunks (suc count) width raw = take width raw ∷ chunks count width (drop width raw)

unfoldable pub num_width : Fields → ℕ
num_width metadata =
    let minimum = godot_int (get_or metadata "min" (int (pos 0))) in
    let bits = godot_int (get_or metadata "bits" (int (pos 0))) in
    let given = pos_part bits in
    if eqb given 8 || eqb given 16 || eqb given 32
    then given / 8
    else integer_width minimum (godot_int (get_or metadata "max" (int (pos 100))))

unfoldable pub decode_num_values : List ℕ → Fields → ℕ → Result CodecError (List Decoded)
decode_num_values raw metadata rows = do
  let minimum = godot_int (get_or metadata "min" (int (pos 0)))
  let width = num_width metadata
  require (not (ltb (length raw) (rows * width))) too_few_bytes
  ok (map (λ chunk. number (restored minimum chunk)) (chunks rows width raw))

unfoldable pub decode_float_values : List ℕ → ℕ → Result CodecError (List Decoded)
decode_float_values raw rows = do
  require (not (ltb (length raw) rows)) too_few_bytes
  ok (map over_255 (take rows raw))

-- `raw.split(b"\x00")`
unfoldable pub split_zero : List ℕ → List ℕ → List (List ℕ)
split_zero part [] = part ∷ []
split_zero part (b ∷ bs) =
    let next = part ∷ split_zero [] bs in
    let more = split_zero (part ++ b ∷ []) bs in if eqb b 0 then next else more

-- The empty part behind the last terminator is dropped.
unfoldable pub drop_last_empty : List (List ℕ) → List (List ℕ)
drop_last_empty [] = []
drop_last_empty ([] ∷ []) = []
drop_last_empty (part ∷ parts) = part ∷ drop_last_empty parts

unfoldable pub decode_texts : List (List ℕ) → Result CodecError (List Decoded)
decode_texts [] = ok []
decode_texts (part ∷ parts) = do
  require (is_utf8 part) invalid_utf8
  rest ← decode_texts parts
  ok (string part ∷ rest)

unfoldable pub decode_text_values : List ℕ → ℕ → Result CodecError (List Decoded)
decode_text_values raw rows = do
  let parts = drop_last_empty (split_zero [] raw)
  require (not (ltb (length parts) rows)) too_few_values
  decode_texts (take rows parts)

unfoldable pub decode_fixed_bytes_values : List ℕ → ℕ → Result CodecError (List Decoded)
decode_fixed_bytes_values raw zero = ok []
decode_fixed_bytes_values raw (suc rows) = do
  require (eqb (length raw % suc rows) 0) not_splittable
  let stride = length raw / suc rows
  require (not (eqb stride 0)) zero_step
  ok (map image (chunks (suc rows) stride raw))

-- the dispatch of `_decode_column_block`
unfoldable pub decode_values : Dtype → List ℕ → Fields → ℕ → Result CodecError (List Decoded)
decode_values Dtype.num raw metadata rows = decode_num_values raw metadata rows
decode_values Dtype.float raw metadata rows = decode_float_values raw rows
decode_values Dtype.text raw metadata rows = decode_text_values raw rows
decode_values Dtype.image raw metadata rows = decode_fixed_bytes_values raw rows
decode_values Dtype.other raw metadata rows = err unsupported_dtype

unfoldable pub decode_column_block : List ℕ → Dtype → Fields → ℕ → Result CodecError (List Decoded)
decode_column_block block dtype metadata rows = do
  raw ← decode_adaptive_block block
  decode_values dtype raw metadata rows
