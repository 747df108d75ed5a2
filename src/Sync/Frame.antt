-- ===== src/Sync/Frame.antt =====
-- `build_dataset_frame`, `parse_dataset_frame` and `_non_negative_int` of core/dataset_sync.py. The
-- `json` module is a parameter: `dumps` writes an object as bytes and `loads` reads bytes back.
use neuralese.Prelude.{
  ℕ, ◌+◌, ◌*◌, ◌/◌, ◌%◌, ◌≤◌, ◌≡◌, refl, Option, none, some, List, [], ◌∷◌, ◌++◌, arith, leb,
  length, take, drop, Result, ok, err, ◌>>=◌, ◌>>◌, require, or_raise, take-append_left,
  drop-append_left, length-append,
}
use neuralese.Prelude.Int.{ℤ, pos, negsuc}
use neuralese.Python.Values.{Value, Fields, object, field, end, text, int, to_int}

-- The messages of `DatasetSyncError`.
pub data SyncError : Type 0 where
  not_prepared not_synced invalid_side not_an_integer negative unexpected_block hash_mismatch :
      SyncError
  header_too_large header_missing header_truncated invalid_header not_an_object : SyncError
  unsupported_record missing_ids missing_fingerprint not_hex : SyncError

pub data Side : Type 0 where
  inputs outputs : Side

abbrev pub side_name : Side → List ℕ
side_name inputs = b'i' ∷ b'n' ∷ b'p' ∷ b'u' ∷ b't' ∷ b's' ∷ []
side_name outputs = b'o' ∷ b'u' ∷ b't' ∷ b'p' ∷ b'u' ∷ b't' ∷ b's' ∷ []

unfoldable pub frame_meta : Side → ℕ → ℕ → Fields
frame_meta side col blk =
    field "blk" (int (pos blk))
      (field "col" (int (pos col)) (field "side" (text (side_name side)) end))

unfoldable pub as_object : Value → Result SyncError Fields
as_object (object fields) = ok fields
as_object _ = err not_an_object

-- `_non_negative_int`
unfoldable pub non_negative : ℤ → Result SyncError ℕ
non_negative (pos n) = ok n
non_negative (negsuc n) = err negative

unfoldable pub non_negative_int : Option Value → Result SyncError ℕ
non_negative_int none = err not_an_integer
non_negative_int (some value) = do n ← or_raise not_an_integer (to_int value); non_negative n

module _ (dumps : Fields → List ℕ) where
  unfoldable pub build_dataset_frame : Side → ℕ → ℕ → List ℕ → Result SyncError (List ℕ)
  build_dataset_frame side col blk payload = do
    let header = dumps (frame_meta side col blk)
    require (leb (length header) 65_535) header_too_large
    ok (length header / 256 ∷ length header % 256 ∷ (header ++ payload))

module _ (loads : List ℕ → Option Value) where
  unfoldable pub parse_dataset_frame : List ℕ → Result SyncError (Fields × List ℕ)
  parse_dataset_frame (hi ∷ lo ∷ frame) = do
    let header_len = hi * 256 + lo
    require (leb header_len (length frame)) header_truncated
    value ← or_raise invalid_header (loads (take header_len frame))
    meta ← as_object value
    ok (meta, drop header_len frame)
  parse_dataset_frame _ = err header_missing

module _ (dumps : Fields → List ℕ) (loads : List ℕ → Option Value) where
  -- A frame that was built is parsed back into its header and its payload, whatever bytes the
  -- payload has, if `json.loads` inverts `json.dumps` on the header.
  pub parse_dataset_frame-build_dataset_frame :
      (side : Side) (col blk : ℕ) (payload : List ℕ)
      → loads (dumps (frame_meta side col blk)) ≡ some (object (frame_meta side col blk))
      → length (dumps (frame_meta side col blk)) ≤ 65_535
      → (frame : List ℕ) × (build_dataset_frame dumps side col blk payload ≡ ok frame)
        × (parse_dataset_frame loads frame ≡ ok (frame_meta side col blk, payload))
  unfolding build_dataset_frame parse_dataset_frame as_object
  parse_dataset_frame-build_dataset_frame side col blk payload json short =
      let header = dumps (frame_meta side col blk) in
      let len : length header / 256 * 256 + length header % 256 ≡ length header = omega arith in
      (
        length header / 256 ∷ length header % 256 ∷ (header ++ payload),
        ground arith,
        rw
            (
              len,
              take-append_left (length header) header payload refl,
              drop-append_left (length header) header payload refl,
              json,
            )
            (ground (arith, length-append header payload)),
      )
