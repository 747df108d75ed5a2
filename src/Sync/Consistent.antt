-- ===== src/Sync/Consistent.antt =====
-- The cache of core/dataset_sync.py never holds a block under a hash that is not its own.
use neuralese.Prelude.{
  ℕ, ◌≡◌, refl, ◌⊎◌, inl, inr, List, [], ◌∷◌, String, string_eq, ◌==◌, Option, none, some, arith,
  Result, ok, err, Bool-cases, >>=-eq-ok,
}
use mathlib.Core.Path.{subst, ◌∙◌}
use text.Mathlib.TextEquality.{eq_iff}
use neuralese.Python.Values.{Value, get?}
use neuralese.Sync.Grid.{Grid, cell, cell-resize_side, cell-write_cell}
use neuralese.Sync.Frame.{SyncError, Side, inputs, outputs, parse_dataset_frame, non_negative_int}
use neuralese.Sync.Cache.{
  Sides, on, Entry, new_entry, entry_for, resize_entry, prepare_entry, write_block, store_block,
  apply_frame, apply_loop, after_frame, expected_hash, side_named,
}

module _ (sha256 : List ℕ → String) where
  -- A hash that is kept is the hash of the block kept beside it, under SHA-256.
  abbrev pub IsConsistent : Entry → Type 0
  IsConsistent entry =
      entry.hash_algo ≡ "sha256"
      → (side : Side) (c b : ℕ)
      → (cell "" (on side entry.hashes) c b ≡ "")
        ⊎ (sha256 (cell [] (on side entry.blocks) c b) ≡ cell "" (on side entry.hashes) c b)

  new_entry-IsConsistent : (algo : String) → IsConsistent (new_entry algo)
  unfolding new_entry
  new_entry-IsConsistent algo e inputs c b = inl refl
  new_entry-IsConsistent algo e outputs c b = inl refl

  resize_entry-IsConsistent :
      (side : Side) (entry : Entry) → IsConsistent entry → IsConsistent (resize_entry side entry)
  unfolding resize_entry
  resize_entry-IsConsistent inputs entry h e inputs c b = ground (
    arith,
    h e inputs c b,
    cell-resize_side "" entry.pending_hashes.0 entry.hashes.0 c b,
    cell-resize_side [] entry.pending_hashes.0 entry.blocks.0 c b,
  )
  resize_entry-IsConsistent inputs entry h e outputs c b = h e outputs c b
  resize_entry-IsConsistent outputs entry h e inputs c b = h e inputs c b
  resize_entry-IsConsistent outputs entry h e outputs c b = ground (
    arith,
    h e outputs c b,
    cell-resize_side "" entry.pending_hashes.1 entry.hashes.1 c b,
    cell-resize_side [] entry.pending_hashes.1 entry.blocks.1 c b,
  )

  write_block-IsConsistent :
      (entry : Entry) (side : Side) (col blk : ℕ) (payload : List ℕ) (expected : String)
      → (entry.hash_algo ≡ "sha256" → sha256 payload ≡ expected)
      → IsConsistent entry
      → IsConsistent (write_block entry side col blk payload expected)
  unfolding write_block
  write_block-IsConsistent entry inputs col blk payload expected own h e inputs c b = ground (
    arith,
    own e,
    h e inputs c b,
    cell-write_cell "" entry.hashes.0 col blk expected c b,
    cell-write_cell [] entry.blocks.0 col blk payload c b,
  )
  write_block-IsConsistent entry inputs col blk payload expected own h e outputs c b =
      h e outputs c b
  write_block-IsConsistent entry outputs col blk payload expected own h e inputs c b =
      h e inputs c b
  write_block-IsConsistent entry outputs col blk payload expected own h e outputs c b = ground (
    arith,
    own e,
    h e outputs c b,
    cell-write_cell "" entry.hashes.1 col blk expected c b,
    cell-write_cell [] entry.blocks.1 col blk payload c b,
  )

  -- What a block that was stored has been checked for.
  pub store_block_inv :
      (entry : Entry) (side : Side) (col blk : ℕ) (payload : List ℕ) (next : Entry)
      → store_block sha256 entry side col blk payload ≡ ok next
      → (expected : String) × (expected_hash entry side col blk ≡ ok expected)
        × (entry.hash_algo ≡ "sha256" → sha256 payload ≡ expected)
        × (write_block entry side col blk payload expected ≡ next)
  unfolding store_block
  store_block_inv entry side col blk payload next stored =
      let (expected, found, rest) = >>=-eq-ok (expected_hash entry side col blk) _ stored in
      (
        expected,
        found,
        (λ e. ground (arith, eq_iff entry.hash_algo "sha256", eq_iff (sha256 payload) expected)),
        ground arith,
      )

  store_block-IsConsistent :
      (entry : Entry) (side : Side) (col blk : ℕ) (payload : List ℕ) (next : Entry)
      → IsConsistent entry
      → store_block sha256 entry side col blk payload ≡ ok next
      → IsConsistent next
  store_block-IsConsistent entry side col blk payload next h stored =
      let (expected, found, own, e) = store_block_inv entry side col blk payload next stored in
      subst IsConsistent e (write_block-IsConsistent entry side col blk payload expected own h)

  module _ (loads : List ℕ → Option Value) where
    -- A frame that is applied is a block that is stored, at the position that its header names.
    pub apply_frame_inv :
        (entry : Entry) (frame : List ℕ) (next : Entry)
        → apply_frame sha256 loads entry frame ≡ ok next
        → (side : Side) × (col : ℕ) × (blk : ℕ) × (payload : List ℕ) × (store_block sha256 entry
              side col blk payload
            ≡ ok next)
    unfolding apply_frame
    apply_frame_inv entry frame next h =
        let ((meta, payload), parsed, h1) = >>=-eq-ok (parse_dataset_frame loads frame) _ h in
        let (side, named, h2) = >>=-eq-ok (side_named (get? meta "side")) _ h1 in
        let (col, c, h3) = >>=-eq-ok (non_negative_int (get? meta "col")) _ h2 in
        let (blk, b, h4) = >>=-eq-ok (non_negative_int (get? meta "blk")) _ h3 in
        (side, col, blk, payload, h4)

    apply_frame-IsConsistent :
        (entry : Entry) (frame : List ℕ) (next : Entry)
        → IsConsistent entry
        → apply_frame sha256 loads entry frame ≡ ok next
        → IsConsistent next
    apply_frame-IsConsistent entry frame next h e =
        let (side, col, blk, payload, stored) = apply_frame_inv entry frame next e in
        store_block-IsConsistent entry side col blk payload next h stored

    -- Whether the frames are all accepted or one is refused, what is stored is consistent.
    pub apply_loop-IsConsistent :
        (frames : List (List ℕ)) (entry : Entry)
        → IsConsistent entry
        → IsConsistent (apply_loop sha256 loads entry frames).1
    unfolding apply_loop
    apply_loop-IsConsistent [] entry h = h
    apply_loop-IsConsistent (frame ∷ frames) entry h =
        go (apply_frame sha256 loads entry frame)
          (λ next. apply_frame-IsConsistent entry frame next h) (apply_loop-IsConsistent frames)
      where
        go :
            (r : Result SyncError Entry)
            → ((next : Entry) → r ≡ ok next → IsConsistent next)
            → ((next : Entry)
                → IsConsistent next
                → IsConsistent (apply_loop sha256 loads next frames).1)
            → IsConsistent (after_frame entry r (λ next. apply_loop sha256 loads next frames)).1
        go (err e) k more = h
        go (ok next) k more = more next (k next refl)

  entry_for-IsConsistent :
      (found : Option Entry) (algo : String)
      → ((entry : Entry) → found ≡ some entry → IsConsistent entry)
      → IsConsistent (entry_for found algo) × ((entry_for found algo).hash_algo ≡ algo)
  unfolding entry_for
  entry_for-IsConsistent none algo h = (new_entry-IsConsistent algo, unfold new_entry in refl)
  entry_for-IsConsistent (some entry) algo h = elim (Bool-cases (entry.hash_algo == algo)) [
    | inl same ↦ rw same (h entry refl, (eq_iff entry.hash_algo algo).0 same)
    | inr other ↦ rw other (new_entry-IsConsistent algo, unfold new_entry in refl)
  ]

  pub prepare_entry-IsConsistent :
      (header : Value) (block_hashes : Sides (Grid String)) (algo : String) (found : Option Entry)
      → ((entry : Entry) → found ≡ some entry → IsConsistent entry)
      → IsConsistent (prepare_entry header block_hashes algo found)
  unfolding prepare_entry
  prepare_entry-IsConsistent header block_hashes algo found h =
      let (kept, same) = entry_for-IsConsistent found algo h in
      resize_entry-IsConsistent outputs _
        (resize_entry-IsConsistent inputs _ (λ e. kept (same ∙ e)))
