-- ===== src/Tests/Sync.antt =====
-- The cache and the frames of core/dataset_sync.py.
use neuralese.Prelude.{
  ℕ, ◌≡◌, refl, inl, inr, bytes_beq, true, Option, none, some, List, [], ◌∷◌, String, string_eq,
  pair_eq, ok, arith,
}
use text.Mathlib.TextEquality.{eq_iff}
use neuralese.Prelude.{lookup, string_eq, pair_eq}
use neuralese.Sync.Consistent.{IsConsistent}
use neuralese.Sync.Runs.{step}
use neuralese.Sync.Grid.{ensure_index, resize, resize_columns, resize_side, write_cell}
use neuralese.Sync.Cache.{
  apply_frames, apply_to, finish_apply, entry_for, missing_from, need_columns, need_of,
  persist_entry, prepare_entry, resize_entry, synced,
}
use neuralese.Python.Values.{Value, Fields, object, get?, to_int}
use neuralese.Sync.Grid.{Grid}
use neuralese.Sync.Frame.{
  inputs, frame_meta, build_dataset_frame, parse_dataset_frame, as_object, non_negative_int,
  non_negative, parse_dataset_frame-build_dataset_frame,
}
use neuralese.Sync.Cache.{
  Key, Sides, Entry, Cache, SyncedDataset, new_entry, get_synced_dataset, prepare_sync,
  algo_or_default, apply_loop, apply_frame, store_block, write_block, expected_hash, side_named,
}
use neuralese.Sync.Complete.{hash_at, Asks, apply_loop_complete}
use neuralese.Sync.Runs.{Request, run, run-AllConsistent, prepare_sync-stale}

-- A toy `json` that knows one header, and a toy digest.
abbrev meta : Fields
meta = frame_meta inputs 0 0

abbrev dumps : Fields → List ℕ
dumps fields = 9 ∷ []

abbrev loads : List ℕ → Option Value
loads bytes = some (object meta)

abbrev digest : List ℕ → String
digest [] = "empty"
digest (b ∷ bytes) = "full"

parse_dataset_frame-build_dataset_frame_example :
    (frame : List ℕ) × (build_dataset_frame dumps inputs 0 0 (1 ∷ 2 ∷ []) ≡ ok frame)
    × (parse_dataset_frame loads frame ≡ ok (meta, 1 ∷ 2 ∷ []))
parse_dataset_frame-build_dataset_frame_example =
    parse_dataset_frame-build_dataset_frame dumps loads inputs 0 0 (1 ∷ 2 ∷ []) refl (omega arith)

abbrev key : Key
key = ("user", "set")

abbrev asked : Sides (Grid String)
asked = (("full" ∷ []) ∷ [], [])

abbrev waiting : Entry
waiting = record (new_entry "sha256") { pending_hashes = asked }

abbrev frame : List ℕ
frame = 0 ∷ 1 ∷ 9 ∷ 1 ∷ 2 ∷ []

abbrev arrived : Entry
arrived = write_block waiting inputs 0 0 (1 ∷ 2 ∷ []) "full"

parsed : parse_dataset_frame loads frame ≡ ok (meta, 1 ∷ 2 ∷ [])
unfolding parse_dataset_frame as_object
parsed = refl

runs : apply_loop digest loads waiting (frame ∷ []) ≡ (ok tt, arrived)
unfolding apply_loop apply_frame parse_dataset_frame as_object frame_meta get? side_named
    non_negative_int non_negative to_int store_block expected_hash bytes_beq new_entry
runs = refl

asks : Asks waiting inputs 0 0 "full"
unfolding expected_hash
asks = refl

apply_loop_complete_example : hash_at arrived inputs 0 0 ≡ "full"
apply_loop_complete_example =
    apply_loop_complete digest loads inputs 0 0 (frame ∷ []) waiting arrived "full" runs asks
      (inr (inl (1 ∷ 2 ∷ [], parsed)))

abbrev no_cache : Cache
no_cache = record { entries = []; storage = none }

abbrev fingerprint_of : Value → String → Sides (Grid String) → String
fingerprint_of header algo hashes = "fingerprint"

abbrev requests : List Request
requests =
    Request.prepare key Value.null asked "sha256" ∷ Request.apply key (frame ∷ frame ∷ []) ∷ []

abbrev final_entry : Entry
final_entry = record arrived { fingerprint = "fingerprint" }

final_found :
    lookup key (run digest loads fingerprint_of requests no_cache).entries ≡ some final_entry
unfolding run step apply_frames apply_to prepare_sync finish_apply apply_loop apply_frame
    parse_dataset_frame as_object side_named get? frame_meta bytes_beq non_negative_int to_int
    non_negative store_block algo_or_default entry_for expected_hash missing_from need_columns
    need_of new_entry persist_entry prepare_entry resize_entry synced write_block ensure_index
    resize resize_columns resize_side write_cell
final_found = refl

run-AllConsistent_example : IsConsistent digest final_entry
run-AllConsistent_example =
    run-AllConsistent digest loads fingerprint_of requests no_cache
      (λ key entry e. absurd (ground (arith, e))) key final_entry final_found

abbrev old_entry : Entry
old_entry = record waiting { fingerprint = "old" }

abbrev old_cache : Cache
old_cache = record { entries = (key, old_entry) ∷ []; storage = none }

same_algo : old_entry.hash_algo ≡ algo_or_default "sha256"
unfolding new_entry algo_or_default
same_algo = refl

prepare_sync-stale_example :
    (d : SyncedDataset) × (get_synced_dataset key
        (prepare_sync key (Value.boolean true) asked "sha256" old_cache).1
      ≡ ok d)
    × (d.header ≡ Value.boolean true)
    × (d.fingerprint ≡ "old")
prepare_sync-stale_example =
    prepare_sync-stale key (Value.boolean true) asked "sha256" old_cache old_entry refl same_algo
      (λ e. ground (arith, (eq_iff "old" "").1 e))
