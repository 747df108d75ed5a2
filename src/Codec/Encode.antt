-- ===== src/Codec/Encode.antt =====
-- The encoding half of core/dataset_compression.py: `_encode_num_block`, `_encode_float_block`,
-- `_encode_text_block`, `_encode_image_block` and the dispatch of `_build_column`. A row is a list of cells. What
-- the floating-point unit computes of a cell, `int(_cell_float(cell) * 255.0)`, and what `str`
-- makes of a value that is no text are parameters.
use neuralese.Prelude.{
  ℕ, ◌-◌, min, List, [], ◌∷◌, ◌++◌, if◌then◌else◌, get_elem?, take, drop, Result, ok, or_raise,
  ◌>>=◌,
}
use neuralese.Prelude.Int.{ℤ, pos_part}
use neuralese.Python.Values.{Value, object, get_or, truthy}
use neuralese.Python.Bytes.{to_bytes}
use neuralese.Python.Hex.{from_hex}
use neuralese.Codec.Types.{CodecError, index_error, not_hex, Dtype}
use neuralese.Codec.Rle.{adaptive_block}
use neuralese.Codec.Num.{cell_num, stored}

-- `row[column]`
unfoldable pub cell_at : List Value → ℕ → Result CodecError Value
cell_at row column = or_raise index_error (get_elem? row column)

-- `rows[start:end]`
abbrev pub slice : {A : Type 0} → ℕ → ℕ → List A → List A
slice start stop xs = take (stop - start) (drop start xs)

-- `for row in rows: raw.extend(f(row[column]))`
unfoldable pub gather :
    (Value → Result CodecError (List ℕ)) → ℕ → List (List Value) → Result CodecError (List ℕ)
gather f column [] = ok []
gather f column (row ∷ rows) = do
  cell ← cell_at row column
  raw ← f cell
  rest ← gather f column rows
  ok (raw ++ rest)

unfoldable pub num_bytes : ℤ → ℕ → Value → Result CodecError (List ℕ)
num_bytes bias width cell = ok (to_bytes width (stored bias width (cell_num cell)))

unfoldable pub encode_num_block : List (List Value) → ℕ → ℕ → ℕ → ℤ → ℕ → Result CodecError (List ℕ)
encode_num_block rows column start stop bias width = do
  raw ← gather (num_bytes bias width) column (slice start stop rows)
  ok (adaptive_block raw)

module _ (quantize : Value → ℤ) (repr : Value → List ℕ) where
  unfoldable pub encode_float_block : List (List Value) → ℕ → ℕ → ℕ → Result CodecError (List ℕ)
  encode_float_block rows column start stop = do
    raw ←
        gather (λ cell. ok (min (pos_part (quantize cell)) 255 ∷ [])) column (slice start stop rows)
    ok (adaptive_block raw)

  -- `str(value)`
  unfoldable pub str : Value → List ℕ
  str (Value.text s) = s
  str value = repr value

  unfoldable pub text_bytes : Value → Result CodecError (List ℕ)
  text_bytes (object fields) = ok (str (get_or fields "text" (Value.text [])) ++ 0 ∷ [])
  text_bytes _ = ok (0 ∷ [])

  unfoldable pub encode_text_block : List (List Value) → ℕ → ℕ → ℕ → Result CodecError (List ℕ)
  encode_text_block rows column start stop = do
    raw ← gather text_bytes column (slice start stop rows)
    ok (0 ∷ raw)

  unfoldable pub image_bytes : Value → Result CodecError (List ℕ)
  image_bytes (object fields) =
      let value = get_or fields "image_bytes_hex" (Value.text []) in
      if truthy value then or_raise not_hex (from_hex (str value)) else ok []
  image_bytes _ = ok []

  unfoldable pub encode_image_block : List (List Value) → ℕ → ℕ → ℕ → Result CodecError (List ℕ)
  encode_image_block rows column start stop = do
    raw ← gather image_bytes column (slice start stop rows)
    ok (0 ∷ raw)

  -- the dispatch in the loop of `_build_column`
  unfoldable pub encode_block :
      Dtype → List (List Value) → ℕ → ℤ → ℕ → ℕ → ℕ → Result CodecError (List ℕ)
  encode_block Dtype.num rows column minimum width start stop =
      encode_num_block rows column start stop minimum width
  encode_block Dtype.float rows column minimum width start stop =
      encode_float_block rows column start stop
  encode_block Dtype.text rows column minimum width start stop =
      encode_text_block rows column start stop
  encode_block _ rows column minimum width start stop = encode_image_block rows column start stop
