-- ===== src/Sync/Complete.antt =====
-- What a run of `apply_frames` of core/dataset_sync.py leaves behind: every position that was
-- there already, or that a frame was sent for, holds the hash that the client asked for.
use mathlib.Core.Path.{subst}
use neuralese.Prelude.{
  ℕ, ◌≡◌, refl, sym, ◌∙◌, ap, ◌⊎◌, inl, inr, List, [], ◌∷◌, String, Option, some, arith, Result, ok,
  err, bytes_beq,
}
use neuralese.Python.Values.{Value, text, get?, to_int}
use neuralese.Sync.Grid.{cell, cell-write_cell}
use neuralese.Sync.Frame.{
  SyncError, Side, inputs, outputs, frame_meta, side_name, parse_dataset_frame, non_negative_int,
  non_negative,
}
use neuralese.Sync.Cache.{
  Entry, on, write_block, store_block, apply_frame, apply_loop, after_frame, expected_hash,
  side_named,
}
use neuralese.Sync.Consistent.{store_block_inv, apply_frame_inv}

-- The client asked for `h` at this position.
abbrev pub Asks : Entry → Side → ℕ → ℕ → String → Type 0
Asks entry s c b h = expected_hash entry s c b ≡ ok h

abbrev pub hash_at : Entry → Side → ℕ → ℕ → String
hash_at entry s c b = cell "" (on s entry.hashes) c b

write_keeps :
    (entry : Entry) (side : Side) (col blk : ℕ) (payload : List ℕ) (expected h : String) (s : Side)
    (c b : ℕ)
    → Asks entry side col blk expected
    → Asks entry s c b h
    → hash_at entry s c b ≡ h
    → (hash_at (write_block entry side col blk payload expected) s c b ≡ h)
      × Asks (write_block entry side col blk payload expected) s c b h
unfolding write_block expected_hash
write_keeps entry inputs col blk payload expected h inputs c b e a k =
    (ground (arith, cell-write_cell "" entry.hashes.0 col blk expected c b), a)
write_keeps entry inputs col blk payload expected h outputs c b e a k = (k, a)
write_keeps entry outputs col blk payload expected h inputs c b e a k = (k, a)
write_keeps entry outputs col blk payload expected h outputs c b e a k =
    (ground (arith, cell-write_cell "" entry.hashes.1 col blk expected c b), a)

write-Asks :
    (entry : Entry) (side : Side) (col blk : ℕ) (payload : List ℕ) (expected h : String) (s : Side)
    (c b : ℕ)
    → Asks entry s c b h
    → Asks (write_block entry side col blk payload expected) s c b h
unfolding write_block expected_hash
write-Asks entry inputs col blk payload expected h s c b a = a
write-Asks entry outputs col blk payload expected h s c b a = a

write_sets :
    (entry : Entry) (side : Side) (col blk : ℕ) (payload : List ℕ) (expected : String)
    → hash_at (write_block entry side col blk payload expected) side col blk ≡ expected
unfolding write_block
write_sets entry inputs col blk payload expected =
    ground (arith, cell-write_cell "" entry.hashes.0 col blk expected col blk)
write_sets entry outputs col blk payload expected =
    ground (arith, cell-write_cell "" entry.hashes.1 col blk expected col blk)

side_named_name : (s : Side) → side_named (some (text (side_name s))) ≡ ok s
unfolding side_named bytes_beq
side_named_name inputs = refl
side_named_name outputs = refl

module _ (sha256 : List ℕ → String) (loads : List ℕ → Option Value) (s : Side) (c b : ℕ) where
  -- The frame carries a block for this position.
  abbrev pub IsFor : List ℕ → Type 0
  IsFor frame =
      (payload : List ℕ) × (parse_dataset_frame loads frame ≡ ok (frame_meta s c b, payload))

  abbrev pub Sent : List (List ℕ) → Type 0
  Sent [] = ⊥
  Sent (frame ∷ frames) = IsFor frame ⊎ Sent frames

  frame_keeps :
      (entry : Entry) (frame : List ℕ) (next : Entry) (h : String)
      → apply_frame sha256 loads entry frame ≡ ok next
      → Asks entry s c b h
      → Asks next s c b h × (hash_at entry s c b ≡ h → hash_at next s c b ≡ h)
  frame_keeps entry frame next h e asks =
      let (side, col, blk, payload, stored) = apply_frame_inv sha256 loads entry frame next e in
      let (expected, found, own, same) =
        store_block_inv sha256 entry side col blk payload next stored in
      (
        subst (λ n. Asks n s c b h) same
            (write-Asks entry side col blk payload expected h s c b asks),
        λ k.
            subst (λ n. hash_at n s c b ≡ h) same
              (write_keeps entry side col blk payload expected h s c b found asks k).0,
      )

  apply_frame_of :
      (entry : Entry) (frame payload : List ℕ)
      → parse_dataset_frame loads frame ≡ ok (frame_meta s c b, payload)
      → apply_frame sha256 loads entry frame ≡ store_block sha256 entry s c b payload
  unfolding apply_frame frame_meta get? non_negative_int to_int non_negative
  apply_frame_of entry frame payload parsed = rw (parsed, side_named_name s)

  frame_sets :
      (entry : Entry) (frame : List ℕ) (next : Entry) (h : String)
      → IsFor frame
      → apply_frame sha256 loads entry frame ≡ ok next
      → Asks entry s c b h
      → hash_at next s c b ≡ h
  frame_sets entry frame next h (payload, parsed) e asks =
      let stored = sym (apply_frame_of entry frame payload parsed) ∙ e in
      let (expected, found, own, same) = store_block_inv sha256 entry s c b payload next stored in
      subst (λ n. hash_at n s c b ≡ h) same
        (write_sets entry s c b payload expected ∙ cc (sym found ∙ asks))

  -- After a run in which no frame is refused, a position that the client asked for holds the hash
  -- it asked for, if the cache held that hash before or a frame was sent for the position.
  pub apply_loop_complete :
      (frames : List (List ℕ)) (entry final : Entry) (h : String)
      → apply_loop sha256 loads entry frames ≡ (ok tt, final)
      → Asks entry s c b h
      → (hash_at entry s c b ≡ h) ⊎ Sent frames
      → hash_at final s c b ≡ h
  unfolding apply_loop
  apply_loop_complete [] entry final h run asks (inl k) = ground arith
  apply_loop_complete [] entry final h run asks (inr none_sent) = elim none_sent [ ]
  apply_loop_complete (frame ∷ frames) entry final h run asks covered =
      go (apply_frame sha256 loads entry frame) refl (apply_loop_complete frames) run
    where
      next_covered :
          (next : Entry)
          → apply_frame sha256 loads entry frame ≡ ok next
          → (hash_at entry s c b ≡ h) ⊎ Sent (frame ∷ frames)
          → (hash_at next s c b ≡ h) ⊎ Sent frames
      next_covered next e (inl k) = inl ((frame_keeps entry frame next h e asks).1 k)
      next_covered next e (inr (inl here)) = inl (frame_sets entry frame next h here e asks)
      next_covered next e (inr (inr later)) = inr later

      go :
          (r : Result SyncError Entry)
          → apply_frame sha256 loads entry frame ≡ r
          → ((entry final : Entry) (h : String)
              → apply_loop sha256 loads entry frames ≡ (ok tt, final)
              → Asks entry s c b h
              → (hash_at entry s c b ≡ h) ⊎ Sent frames
              → hash_at final s c b ≡ h)
          → after_frame entry r (λ next. apply_loop sha256 loads next frames) ≡ (ok tt, final)
          → hash_at final s c b ≡ h
      go (err e) p more q = absurd (cc (ap (λ (t : Result SyncError (Unit {0}) × Entry). t.0) q))
      go (ok next) p more q =
          more next final h q (frame_keeps entry frame next h p asks).0
            (next_covered next p covered)
