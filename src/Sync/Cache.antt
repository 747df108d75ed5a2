-- ===== src/Sync/Cache.antt =====
-- `DatasetSyncCache` of core/dataset_sync.py: its entries, `prepare_sync`, `apply_frames`,
-- `get_synced_dataset` and `cached_fingerprints`. SHA-256, the fingerprint that is made from an
-- entry's header, algorithm and hashes, and the `json` module are parameters. The directory of
-- persisted records is keyed by the two ids from whose digest a file's name is made.
use neuralese.Prelude.{
  ℕ, ◌+◌, not, ◌||◌, Option, none, some, List, [], ◌∷◌, String, string_eq, pair_eq, ◌==◌,
  if◌then◌else◌, get_elem?, Dict, lookup, insert, Result, ok, err, ◌>>=◌, ◌>>◌, require, or_raise,
}
use neuralese.Python.Values.{Value, text, get?}
use neuralese.Sync.Grid.{Grid, cell, resize_side, write_cell}
use neuralese.Sync.Frame.{
  SyncError, not_prepared, not_synced, invalid_side, unexpected_block, hash_mismatch, Side, inputs,
  outputs, side_name, non_negative_int, parse_dataset_frame,
}
use neuralese.Prelude.{bytes_eq}

abbrev pub Sides : Type 0 → Type 0
Sides A = A × A

module _ {A : Type 0} where
  abbrev pub on : Side → Sides A → A
  on inputs s = s.0
  on outputs s = s.1

  abbrev pub put_on : Side → A → Sides A → Sides A
  put_on inputs a s = (a, s.1)
  put_on outputs a s = (s.0, a)

pub record Entry : Type 0 where
  pub header : Value
  pub hash_algo : String
  pub blocks : Sides (Grid (List ℕ))
  pub hashes : Sides (Grid String)
  pub pending_hashes : Sides (Grid String)
  pub fingerprint : String

pub record SyncedDataset : Type 0 where
  pub user_id : String
  pub dataset_id : String
  pub header : Value
  pub hash_algo : String
  pub fingerprint : String
  pub packet : Sides (Grid (List ℕ))

abbrev pub Key : Type 0
Key = String × String

pub record Cache : Type 0 where
  pub entries : Dict Key Entry
  -- the storage directory, if the cache has one
  pub storage : Option (Dict Key Entry)

-- `_DatasetEntry(hash_algo=hash_algo)`
unfoldable pub new_entry : String → Entry
new_entry algo = record {
  header = Value.null;
  hash_algo = algo;
  blocks = ([], []);
  hashes = ([], []);
  pending_hashes = ([], []);
  fingerprint = "";
}

-- `hash_algo or "sha256"`
unfoldable pub algo_or_default : String → String
algo_or_default algo = if algo == "" then "sha256" else algo

unfoldable pub entry_for : Option Entry → String → Entry
entry_for none algo = new_entry algo
entry_for (some entry) algo = if entry.hash_algo == algo then entry else new_entry algo

-- The block indices of a column, from `block` on, whose cached hash is not the expected one.
unfoldable pub missing_from : ℕ → List String → Grid String → ℕ → List ℕ
missing_from block [] hashes col = []
missing_from block (expected ∷ rest) hashes col =
    let others = missing_from (block + 1) rest hashes col in
    if cell "" hashes col block == expected then others else block ∷ others

unfoldable pub need_columns : ℕ → Grid String → Grid String → Grid ℕ
need_columns col [] hashes = []
need_columns col (client ∷ clients) hashes =
    missing_from 0 client hashes col ∷ need_columns (col + 1) clients hashes

-- `_resize_side` on one side of an entry, by the client's columns.
unfoldable pub resize_entry : Side → Entry → Entry
resize_entry side entry =
    let clients = on side entry.pending_hashes in
    record entry {
      hashes = put_on side (resize_side "" clients (on side entry.hashes)) entry.hashes;
      blocks = put_on side (resize_side [] clients (on side entry.blocks)) entry.blocks;
    }

unfoldable pub prepare_entry : Value → Sides (Grid String) → String → Option Entry → Entry
prepare_entry header block_hashes algo found =
    let entry = entry_for found algo in
    resize_entry outputs (
      resize_entry inputs
        (record entry { header = header; hash_algo = algo; pending_hashes = block_hashes }))

unfoldable pub need_of : Entry → Sides (Grid ℕ)
need_of entry = (
  need_columns 0 entry.pending_hashes.0 entry.hashes.0,
  need_columns 0 entry.pending_hashes.1 entry.hashes.1,
)

-- `prepare_sync`, on hashes that are two lists of columns; `_normalize_hashes` raises on others, which are
-- not modelled.
unfoldable pub prepare_sync :
    Key → Value → Sides (Grid String) → String → Cache → Sides (Grid ℕ) × Cache
prepare_sync key header block_hashes hash_algo cache =
    let algo = algo_or_default hash_algo in
    let entry = prepare_entry header block_hashes algo (lookup key cache.entries) in
    (need_of entry, record cache { entries = insert key entry cache.entries })

-- `str(meta.get("side", ""))`, if it is one of the two names
unfoldable pub side_named : Option Value → Result SyncError Side
side_named (some (text s)) =
    if s == side_name inputs
    then ok inputs
    else if s == side_name outputs
    then ok outputs
    else err invalid_side
side_named _ = err invalid_side

-- `_expected_hash`
unfoldable pub expected_hash : Entry → Side → ℕ → ℕ → Result SyncError String
expected_hash entry side col blk = do
  column ← or_raise unexpected_block (get_elem? (on side entry.pending_hashes) col)
  or_raise unexpected_block (get_elem? column blk)

unfoldable pub synced : Key → Entry → SyncedDataset
synced (user_id, dataset_id) entry = record {
  user_id = user_id;
  dataset_id = dataset_id;
  header = entry.header;
  hash_algo = entry.hash_algo;
  fingerprint = entry.fingerprint;
  packet = entry.blocks;
}

-- `_persist_entry`
unfoldable pub persist_entry : Key → Entry → Option (Dict Key Entry) → Option (Dict Key Entry)
persist_entry key entry none = none
persist_entry key entry (some files) =
    if entry.fingerprint == "" then some files else some (insert key entry files)

-- The two assignments at a frame's position.
unfoldable pub write_block : Entry → Side → ℕ → ℕ → List ℕ → String → Entry
write_block entry side col blk payload expected = record entry {
  blocks = put_on side (write_cell [] (on side entry.blocks) col blk payload) entry.blocks;
  hashes = put_on side (write_cell "" (on side entry.hashes) col blk expected) entry.hashes;
}

module _ (sha256 : List ℕ → String) where
  unfoldable pub store_block : Entry → Side → ℕ → ℕ → List ℕ → Result SyncError Entry
  store_block entry side col blk payload = do
    expected ← expected_hash entry side col blk
    require (not (entry.hash_algo == "sha256") || sha256 payload == expected) hash_mismatch
    ok (write_block entry side col blk payload expected)

abbrev pub after_frame :
    Entry
    → Result SyncError Entry
    → (Entry → Result SyncError (Unit {0}) × Entry)
    → Result SyncError (Unit {0}) × Entry
after_frame entry (err e) continue = (err e, entry)
after_frame entry (ok next) continue = continue next

module _ (sha256 : List ℕ → String) (loads : List ℕ → Option Value) where
  unfoldable pub apply_frame : Entry → List ℕ → Result SyncError Entry
  apply_frame entry frame = do
    (meta, payload) ← parse_dataset_frame loads frame
    side ← side_named (get? meta "side")
    col ← non_negative_int (get? meta "col")
    blk ← non_negative_int (get? meta "blk")
    store_block sha256 entry side col blk payload

  -- The loop over the frames: what was stored before a frame is refused stays stored.
  unfoldable pub apply_loop : Entry → List (List ℕ) → Result SyncError (Unit {0}) × Entry
  apply_loop entry [] = (ok tt, entry)
  apply_loop entry (frame ∷ frames) =
      after_frame entry (apply_frame entry frame) (λ next. apply_loop next frames)

  module _ (fingerprint_of : Value → String → Sides (Grid String) → String) where
    unfoldable pub finish_apply :
        Key → Cache → Result SyncError (Unit {0}) × Entry → Result SyncError SyncedDataset × Cache
    finish_apply key cache (err e, entry) =
        (err e, record cache { entries = insert key entry cache.entries })
    finish_apply key cache (ok _, entry) =
        let done = record entry {
          fingerprint = fingerprint_of entry.header entry.hash_algo entry.hashes;
        } in
        (
          ok (synced key done),
          record {
            entries = insert key done cache.entries;
            storage = persist_entry key done cache.storage;
          },
        )

    unfoldable pub apply_to :
        Key → List (List ℕ) → Cache → Option Entry → Result SyncError SyncedDataset × Cache
    apply_to key frames cache none = (err not_prepared, cache)
    apply_to key frames cache (some entry) = finish_apply key cache (apply_loop entry frames)

    unfoldable pub apply_frames :
        Key → List (List ℕ) → Cache → Result SyncError SyncedDataset × Cache
    apply_frames key frames cache = apply_to key frames cache (lookup key cache.entries)

-- `entry is None or not entry.fingerprint`
unfoldable pub synced_or_raise : Key → Option Entry → Result SyncError SyncedDataset
synced_or_raise key none = err not_synced
synced_or_raise key (some entry) =
    if entry.fingerprint == "" then err not_synced else ok (synced key entry)

unfoldable pub get_synced_dataset : Key → Cache → Result SyncError SyncedDataset
get_synced_dataset key cache = synced_or_raise key (lookup key cache.entries)

-- `cached_fingerprints`, before it is sorted
unfoldable pub fingerprints : Dict Key Entry → List String
fingerprints [] = []
fingerprints ((key, entry) ∷ entries) =
    let rest = fingerprints entries in
    if entry.fingerprint == "" then rest else entry.fingerprint ∷ rest
