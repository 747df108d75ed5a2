-- ===== src/Codec/ColumnRoundTrip.antt =====
-- A numeric column of core/dataset_compression.py, from `_build_column` to `_decode_packet_side`.
use mathlib.Core.List.{map-append}
use native.Mathlib.Nat.{div-add-mod, mod-lt, zero-mul}
use neuralese.Prelude.{
  ℕ, zero, suc, ◌+◌, ◌-◌, ◌*◌, ◌^◌, ◌<◌, ◌≤◌, min, ◌≡◌, refl, sym, ap, ◌∙◌, List, [], ◌∷◌, ◌++◌,
  map, arith, length, take, drop, All, Result, ok, All-take, All-drop, take-append-drop, drop-drop,
  length-take, length-drop, take-min, take_all, drop_all, length-map,
}
use neuralese.Prelude.Int.{ℤ, pos, ◌-ℤ◌, pos_part}
use neuralese.Python.Values.{Value, get_or, get?, to_int, truthy, int}
use neuralese.Python.Hex.{hex, from_hex-hex}
use neuralese.Codec.Types.{CodecError, Dtype, Metadata, Header}
use neuralese.Codec.Rle.{
  IsByte, adaptive_block, adaptive_block-IsByte, decode_adaptive_block-adaptive_block,
}
use neuralese.Codec.Num.{integer_width, integer_width-cases, godot_int}
use neuralese.Codec.Encode.{encode_num_block, encode_block, slice}
use neuralese.Codec.Column.{
  Dataset, Column, build_blocks, build_column, column_args, args_min, args_max, metadata_of,
  num_metadata, total_blocks,
}
use neuralese.Codec.Decode.{
  Decoded, number, num_width, decode_column_block, decode_values, as_hex, block_bytes, Block,
}
use neuralese.Codec.Packet.{
  column_data, column_metadata, column_blocks, decode_blocks, decode_column, packet_rows_per_block,
}
use neuralese.Codec.RoundTrip.{
  num_bounds, num_at, InRange, values, gather-Reads, decode_num_values-Reads,
}

num_bounds-num_metadata : (lo hi : ℤ) → num_bounds (num_metadata lo hi) ≡ lo
unfolding num_metadata godot_int get_or get? to_int
num_bounds-num_metadata lo hi = refl

num_width-num_metadata : (lo hi : ℤ) → num_width (num_metadata lo hi) ≡ integer_width lo hi
unfolding num_metadata num_width godot_int get_or get? to_int
num_width-num_metadata lo hi = grind (arith, integer_width-cases lo hi)

column_blocks-hex :
    (bs : List (List ℕ)) → All (All IsByte) bs → column_blocks (map as_hex (map hex bs)) ≡ ok bs
unfolding column_blocks block_bytes
column_blocks-hex [] h = refl
column_blocks-hex (b ∷ bs) h = rw (from_hex-hex b h.0, column_blocks-hex bs h.1)

module _ (lo hi : ℤ) (fits : pos_part (hi -ℤ lo) < 2 ^ 32) (column : ℕ) (rows : List (List Value))
    (in_range : All (InRange lo hi column) rows) (rows_per_block : ℕ) where
  abbrev metadata : Metadata
  metadata = record { dtype = Dtype.num; entries = num_metadata lo hi }

  abbrev cells : List (List Value) → List Decoded
  cells = values lo hi fits column

  abbrev encode : ℕ → ℕ → Result CodecError (List ℕ)
  encode start stop = encode_num_block rows column start stop lo (integer_width lo hi)

  slice-take :
      (start : ℕ)
      → slice start (min (start + rows_per_block) (length rows)) rows
        ≡ take rows_per_block (drop start rows)
  slice-take start =
      let e : min (start + rows_per_block) (length rows) - start
          ≡ min rows_per_block (length (drop start rows)) =
        omega (arith, length-drop start rows) in
      ap (λ (k : ℕ). take k (drop start rows)) e ∙ take-min rows_per_block (drop start rows)

  block_round_trip :
      (start : ℕ)
      → let part = take rows_per_block (drop start rows) in
        (block : List ℕ) × (encode start (min (start + rows_per_block) (length rows)) ≡ ok block)
        × All IsByte block
        × (decode_column_block block Dtype.num (num_metadata lo hi) (length part) ≡ ok (cells part))
  unfolding encode_num_block decode_column_block decode_values
  block_round_trip start =
      let part = take rows_per_block (drop start rows) in
      let (raw, r) = gather-Reads lo hi fits column part (
        All-take (InRange lo hi column) rows_per_block (drop start rows)
          (All-drop (InRange lo hi column) start rows in_range)) in
      (
        adaptive_block raw,
        rw (slice-take start, r.gathered),
        adaptive_block-IsByte raw r.below,
        rw (decode_adaptive_block-adaptive_block raw) (
            decode_num_values-Reads lo hi fits column (num_metadata lo hi)
              (num_bounds-num_metadata lo hi) (num_width-num_metadata lo hi) part raw r),
      )

  cells-append : (xs ys : List (List Value)) → cells xs ++ cells ys ≡ cells (xs ++ ys)
  cells-append xs ys = sym (map-append (λ row. number (num_at column row)) xs ys)

  -- The blocks from `index` on read back as the rows from `index * rows_per_block` on.
  blocks_round_trip :
      (count index : ℕ)
      → length rows ≤ (index + count) * rows_per_block
      → (bs : List (List ℕ)) × (build_blocks encode (length rows) rows_per_block index count
          ≡ ok bs)
        × All (All IsByte) bs
        × (decode_blocks bs metadata rows_per_block (length rows) index
            ≡ ok (cells (drop (index * rows_per_block) rows)))
  unfolding build_blocks decode_blocks
  blocks_round_trip zero index h =
      ([], refl, tt, rw (drop_all (index * rows_per_block) rows (omega arith)))
  blocks_round_trip (suc count) index h =
      let start = index * rows_per_block in
      let rest = drop start rows in
      let (block, built, bytes, back) = block_round_trip start in
      let (bs, builts, bytess, backs) = blocks_round_trip count (index + 1) (omega arith) in
      let size : min rows_per_block (length rows - start) ≡ length (take rows_per_block rest) =
        omega (arith, length-take rows_per_block rest, length-drop start rows) in
      let next : drop ((index + 1) * rows_per_block) rows ≡ drop rows_per_block rest =
        ap (λ (k : ℕ). drop k rows)
          (let e : (index + 1) * rows_per_block ≡ start + rows_per_block = omega arith in e)
        ∙ sym (drop-drop rows_per_block start rows) in
      (
        block ∷ bs,
        rw (built, builts),
        (bytes, bytess),
        rw (size, back, backs, next)
            (ap ok (
              cells-append (take rows_per_block rest) (drop rows_per_block rest)
              ∙ ap cells (take-append-drop rows_per_block rest))),
      )

abbrev pub lower : Dataset → ℕ → ℤ
lower dataset column = args_min (column_args dataset.col_args column)

abbrev pub upper : Dataset → ℕ → ℤ
upper dataset column = args_max (column_args dataset.col_args column)

total_blocks_cover :
    (rows rows_per_block : ℕ)
    → 0 < rows_per_block
    → rows ≤ (0 + total_blocks rows rows_per_block) * rows_per_block
total_blocks_cover rows rows_per_block h =
    let d = rows + rows_per_block - 1 in omega (arith, div-add-mod d rows_per_block, mod-lt d h)

packet_rows_of_column :
    (header : Header) (n : ℕ) (blocks : List Block)
    → 0 < n
    → packet_rows_per_block header (record { rows_per_block = int (pos n); blocks = blocks }) ≡ ok n
unfolding packet_rows_per_block truthy godot_int to_int
packet_rows_of_column header zero blocks h = elim h [ ]
packet_rows_of_column header (suc n) blocks h = ground arith

-- A numeric column whose cells lie between the bounds declared for it, less than 2 ^ 32 apart, is
-- encoded without an error, whatever the number of rows to a block, and under the metadata that
-- the encoder writes for it the decoder gives back exactly the numbers of its cells, in order.
pub decode_column-build_column :
    (quantize : Value → ℤ) (repr : Value → List ℕ) (sha256 : List ℕ → List ℕ) (dataset : Dataset)
    (column rows_per_block : ℕ) (header : Header)
    → 0 < rows_per_block
    → pos_part (upper dataset column -ℤ lower dataset column) < 2 ^ 32
    → All (InRange (lower dataset column) (upper dataset column) column) dataset.arr
    → column_metadata header column ≡ metadata_of Dtype.num (column_args dataset.col_args column)
    → (c : Column) × (build_column quantize repr sha256 dataset column Dtype.num rows_per_block
        ≡ ok c)
      × (decode_column header (length dataset.arr) column (column_data c)
          ≡ ok (map (λ row. number (num_at column row)) dataset.arr))
unfolding build_column decode_column column_data metadata_of encode_block
decode_column-build_column quantize repr sha256 dataset column rows_per_block header positive fits
      in_range meta =
    let (bs, built, bytes, back) =
      blocks_round_trip (lower dataset column) (upper dataset column) fits column dataset.arr
        in_range rows_per_block (total_blocks (length dataset.arr) rows_per_block) 0
        (total_blocks_cover (length dataset.arr) rows_per_block positive) in
    (
      record {
        blocks = map hex bs;
        hashes = map sha256 bs;
        rows_per_block = rows_per_block;
        dtype = Dtype.num;
      },
      rw built,
      rw
          (
            packet_rows_of_column header rows_per_block (map as_hex (map hex bs)) positive,
            column_blocks-hex bs bytes,
            meta,
            back,
            zero-mul,
          )
          (ground (
            arith,
            length-map number_of dataset.arr,
            take_all (length dataset.arr) (map number_of dataset.arr),
          )),
    )
  where
    number_of : List Value → Decoded
    number_of row = number (num_at column row)
