-- ===== src/Codec/Num.antt =====
-- The numbers of a `num` column in core/dataset_compression.py: `integer_width`, the body of the
-- loop of `_encode_num_block`, and `_godot_int`.
use neuralese.Prelude.{
  ℕ, ◌*◌, ◌^◌, ◌≤◌, ◌<◌, max, min, ◌≡◌, refl, ◌⊎◌, inl, inr, arith, leb, eqb, if◌then◌else◌, List,
  length,
}
use mathlib.Core.Option
use neuralese.Prelude.Int.{
  ℤ, pos, negsuc, ◌+ℤ◌, ◌-ℤ◌, ◌≤ℤ◌, pos_part, neg_part, -ℤ_parts, eq_of_parts,
}
use neuralese.Python.Values.{Value, int, object, get_or, to_int}
use neuralese.Python.Bytes.{to_bytes, from_bytes, low_bits, length-to_bytes, from_bytes-to_bytes}

-- `choose_block_rows`
unfoldable pub choose_block_rows : ℕ → ℕ
choose_block_rows rows = if leb rows 100_000 then 256 else if leb rows 300_000 then 512 else 1024

unfoldable pub integer_width : ℤ → ℤ → ℕ
integer_width minimum maximum =
    let value_range = max 1 (pos_part (maximum -ℤ minimum)) in
    if leb value_range 255 then 1 else if leb value_range 65_535 then 2 else 4

unfoldable pub godot_int : Value → ℤ
godot_int value = Option.get_or (to_int value) (pos 0)

unfoldable pub cell_num : Value → ℤ
cell_num (object fields) = godot_int (get_or fields "num" (int (pos 0)))
cell_num _ = pos 0

-- The value that goes into the block: clamped to a byte at width 1, else masked.
unfoldable pub stored : ℤ → ℕ → ℤ → ℕ
stored bias width n =
    let value = n -ℤ bias in
    if eqb width 1 then min (pos_part value) 255 else low_bits value (2 ^ (width * 8))

-- What a reader makes of the bytes.
unfoldable pub restored : ℤ → List ℕ → ℤ
restored minimum chunk = pos (from_bytes chunk) +ℤ minimum

-- The chosen width holds the range.
pub integer_width-cases :
    (lo hi : ℤ)
    → let range = pos_part (hi -ℤ lo) in
      ((integer_width lo hi ≡ 1) × (range ≤ 255))
      ⊎ (((integer_width lo hi ≡ 2) × (range ≤ 65_535)) ⊎ (integer_width lo hi ≡ 4))
unfolding integer_width
integer_width-cases lo hi = ground arith

difference :
    (lo hi n : ℤ)
    → lo ≤ℤ n
    → n ≤ℤ hi
    → (n -ℤ lo ≡ pos (pos_part (n -ℤ lo))) × (pos_part (n -ℤ lo) ≤ pos_part (hi -ℤ lo))
difference lo hi n h k = (
  eq_of_parts (n -ℤ lo) (pos (pos_part (n -ℤ lo))) (omega (arith, -ℤ_parts, sign n lo)),
  omega (arith, -ℤ_parts, sign n lo, sign hi lo),
)
  where
    sign : (a b : ℤ) → (pos_part (a -ℤ b) ≡ 0) ⊎ (neg_part (a -ℤ b) ≡ 0)
    sign a b = either (a -ℤ b)
      where
        either : (c : ℤ) → (pos_part c ≡ 0) ⊎ (neg_part c ≡ 0)
        either (pos m) = inr refl
        either (negsuc m) = inl refl

stored_at :
    (lo n : ℤ) (width m : ℕ)
    → n -ℤ lo ≡ pos m
    → ((width ≡ 1) × (m ≤ 255)) ⊎ (((width ≡ 2) × (m ≤ 65_535)) ⊎ ((width ≡ 4) × (m < 2 ^ 32)))
    → (stored lo width n ≡ m) × (m < 256 ^ width)
unfolding stored low_bits
stored_at lo n width m e (inl (w, h)) = rw (w, e) (omega arith, omega arith)
stored_at lo n width m e (inr (inl (w, h))) = rw (w, e) (omega arith, omega arith)
stored_at lo n width m e (inr (inr (w, h))) = rw (w, e) (omega arith, omega arith)

-- A number between the bounds fits in the width chosen for them.
stored_fits :
    (lo hi n : ℤ)
    → lo ≤ℤ n
    → n ≤ℤ hi
    → pos_part (hi -ℤ lo) < 2 ^ 32
    → let m = pos_part (n -ℤ lo) in
      (stored lo (integer_width lo hi) n ≡ m) × (m < 256 ^ integer_width lo hi)
stored_fits lo hi n h k r =
    let (e, below) = difference lo hi n h k in
    stored_at lo n (integer_width lo hi) (pos_part (n -ℤ lo)) e
      (grind (arith, integer_width-cases lo hi))

pub length-stored : (width : ℕ) (lo n : ℤ) → length (to_bytes width (stored lo width n)) ≡ width
length-stored width lo n = length-to_bytes width (stored lo width n)

add_back : (lo n : ℤ) (m : ℕ) → n -ℤ lo ≡ pos m → pos m +ℤ lo ≡ n
unfolding ◌-ℤ◌ ◌+ℤ◌
add_back lo n m e = ground arith

restored_bytes : (lo : ℤ) (chunk : List ℕ) → restored lo chunk ≡ pos (from_bytes chunk) +ℤ lo
unfolding restored
restored_bytes lo chunk = refl

-- A number between its bounds, less than 2 ^ 32 apart, comes back from the bytes of the width that is
-- chosen for the bounds.
pub restored-stored :
    (lo hi n : ℤ)
    → lo ≤ℤ n
    → n ≤ℤ hi
    → pos_part (hi -ℤ lo) < 2 ^ 32
    → restored lo (to_bytes (integer_width lo hi) (stored lo (integer_width lo hi) n)) ≡ n
restored-stored lo hi n h k r =
    let (e, fits) = stored_fits lo hi n h k r in
    let back = from_bytes-to_bytes (integer_width lo hi) (pos_part (n -ℤ lo)) fits in
    rw (restored_bytes, e, back) (add_back lo n _ (difference lo hi n h k).0)
