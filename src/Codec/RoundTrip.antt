-- ===== src/Codec/RoundTrip.antt =====
-- The numeric columns of core/dataset_compression.py: what `_build_column` encodes and the packet's
-- decoder reads back.
use neuralese.Prelude.{
  ℕ, ◌*◌, ◌^◌, ◌<◌, ◌≡◌, refl, Option, none, some, List, [], ◌∷◌, ◌++◌, map, arith, length,
  get_elem?, All, All-append, ok, length-append, take-append_left, drop-append_left,
}
use neuralese.Prelude.Int.{ℤ, pos, ◌-ℤ◌, ◌≤ℤ◌, pos_part}
use neuralese.Python.Values.{Value, Fields, int, get_or}
use neuralese.Python.Bytes.{to_bytes, to_bytes_below}
use neuralese.Codec.Num.{
  godot_int, cell_num, integer_width, restored, stored, length-stored, restored-stored,
}
use neuralese.Codec.Encode.{gather, cell_at, num_bytes}
use neuralese.Codec.Decode.{Decoded, number, chunks, num_width, decode_num_values}
use neuralese.Codec.Rle.{IsByte}

-- What a decoder takes for the least number of a column.
abbrev pub num_bounds : Fields → ℤ
num_bounds entries = godot_int (get_or entries "min" (int (pos 0)))

abbrev pub cell_or_zero : Option Value → ℤ
cell_or_zero none = pos 0
cell_or_zero (some cell) = cell_num cell

abbrev pub num_at : ℕ → List Value → ℤ
num_at column row = cell_or_zero (get_elem? row column)

-- The row has a cell in the column, and its number lies between the bounds.
abbrev pub InRange : ℤ → ℤ → ℕ → List Value → Type 0
InRange lo hi column row =
    (cell : Value) × (get_elem? row column ≡ some cell)
    × (lo ≤ℤ cell_num cell)
    × (cell_num cell ≤ℤ hi)

module _ (lo hi : ℤ) (fits : pos_part (hi -ℤ lo) < 2 ^ 32) (column : ℕ) where
  abbrev pub width : ℕ
  width = integer_width lo hi

  abbrev pub values : List (List Value) → List Decoded
  values = map (λ row. number (num_at column row))

  -- `raw` is what the encoder gathers from the rows, and its pieces read back as their numbers.
  pub record Reads (rows : List (List Value)) (raw : List ℕ) : Type 0 where
    pub gathered : gather (num_bytes lo width) column rows ≡ ok raw
    pub size : length raw ≡ length rows * width
    pub below : All IsByte raw
    pub back :
        map (λ chunk. number (restored lo chunk)) (chunks (length rows) width raw) ≡ values rows

  pub gather-Reads :
      (rows : List (List Value)) → All (InRange lo hi column) rows → (raw : List ℕ) × Reads rows raw
  unfolding gather cell_at num_bytes chunks
  gather-Reads [] h = ([], record { gathered = refl; size = omega arith; below = tt; back = refl })
  gather-Reads (row ∷ rows) ((cell, found, low, high), rest) =
      let (raw, r) = gather-Reads rows rest in
      let own = to_bytes width (stored lo width (cell_num cell)) in
      let len = length-stored width lo (cell_num cell) in
      let below = All-append IsByte own raw (to_bytes_below width _) r.below in
      (
        own ++ raw,
        record {
          gathered = rw (found, r.gathered);
          size = omega (arith, r.size, len, length-append own raw);
          below = below;
          back = rw (
            take-append_left width own raw len,
            drop-append_left width own raw len,
            found,
            restored-stored lo hi (cell_num cell) low high fits,
            r.back,
          );
        },
      )

  module _ (entries : Fields) (bounds : num_bounds entries ≡ lo)
      (bits : num_width entries ≡ width) where
    pub decode_num_values-Reads :
        (rows : List (List Value)) (raw : List ℕ)
        → Reads rows raw
        → decode_num_values raw entries (length rows) ≡ ok (values rows)
    unfolding decode_num_values
    decode_num_values-Reads rows raw r = rw (bits, bounds) (ground (arith, r.size, r.back))
