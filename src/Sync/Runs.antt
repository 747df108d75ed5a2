-- ===== src/Sync/Runs.antt =====
-- Whole runs of the cache of core/dataset_sync.py: any sequence of calls, accepted or refused.
use neuralese.Prelude.{
  ℕ, ◌≡◌, ◌≢◌, refl, ◌∙◌, true, false, List, [], ◌∷◌, String, string_eq, pair_eq, ◌==◌,
  if◌then◌else◌, Option, none, some, arith, Result, ok, err, lookup, insert, lookup-insert,
  lookup-insert_self, sym, Bool, Dict,
}
use mathlib.Core.Path.{subst}
use mathlib.Core.Option.{some-injective}
use text.Mathlib.TextEquality.{eq_iff}
use neuralese.Python.Values.{Value}
use neuralese.Sync.Grid.{Grid}
use neuralese.Sync.Frame.{SyncError}
use neuralese.Sync.Cache.{
  Entry, Cache, Key, Sides, SyncedDataset, prepare_sync, prepare_entry, algo_or_default,
  apply_frames, apply_loop, apply_to, finish_apply, get_synced_dataset, synced_or_raise, entry_for,
  resize_entry, synced,
}
use neuralese.Sync.Consistent.{IsConsistent, prepare_entry-IsConsistent, apply_loop-IsConsistent}

pub data Request : Type 0 where
  prepare : Key → Value → Sides (Grid String) → String → Request
  apply : Key → List (List ℕ) → Request

module _ (sha256 : List ℕ → String) (loads : List ℕ → Option Value)
    (fingerprint_of : Value → String → Sides (Grid String) → String) where
  unfoldable pub step : Request → Cache → Cache
  step (prepare key header hashes algo) cache = (prepare_sync key header hashes algo cache).1
  step (apply key frames) cache = (apply_frames sha256 loads fingerprint_of key frames cache).1

  unfoldable pub run : List Request → Cache → Cache
  run [] cache = cache
  run (request ∷ requests) cache = run requests (step request cache)

  -- Every entry of the cache is consistent.
  abbrev pub AllConsistent : Cache → Type 0
  AllConsistent cache =
      (key : Key) (entry : Entry)
      → lookup key cache.entries ≡ some entry
      → IsConsistent sha256 entry

  insert-AllConsistent :
      (key : Key) (entry : Entry) (cache : Cache) (storage : Option (Dict Key Entry))
      → IsConsistent sha256 entry
      → AllConsistent cache
      → AllConsistent (record { entries = insert key entry cache.entries; storage = storage })
  insert-AllConsistent key entry cache storage own h k found e =
      go (key == k) refl (rw (← lookup-insert key k entry cache.entries) e)
    where
      go :
          (b : Bool)
          → (key == k) ≡ b
          → (if b then some entry else lookup k cache.entries) ≡ some found
          → IsConsistent sha256 found
      go true p q = subst (IsConsistent sha256) (some-injective entry found q) own
      go false p q = h k found q

  finish_apply-AllConsistent :
      (key : Key) (cache : Cache) (result : Result SyncError (Unit {0}) × Entry)
      → IsConsistent sha256 result.1
      → AllConsistent cache
      → AllConsistent (finish_apply sha256 loads fingerprint_of key cache result).1
  unfolding finish_apply
  finish_apply-AllConsistent key cache (err e, entry) own h =
      insert-AllConsistent key entry cache cache.storage own h
  finish_apply-AllConsistent key cache (ok u, entry) own h =
      insert-AllConsistent key _ cache none own h

  apply_to-AllConsistent :
      (key : Key) (frames : List (List ℕ)) (cache : Cache) (found : Option Entry)
      → ((entry : Entry) → found ≡ some entry → IsConsistent sha256 entry)
      → AllConsistent cache
      → AllConsistent (apply_to sha256 loads fingerprint_of key frames cache found).1
  unfolding apply_to
  apply_to-AllConsistent key frames cache none k h = h
  apply_to-AllConsistent key frames cache (some entry) k h =
      finish_apply-AllConsistent key cache (apply_loop sha256 loads entry frames)
        (apply_loop-IsConsistent sha256 loads frames entry (k entry refl)) h

  step-AllConsistent :
      (request : Request) (cache : Cache) → AllConsistent cache → AllConsistent (step request cache)
  unfolding step prepare_sync apply_frames
  step-AllConsistent (prepare key header hashes algo) cache h =
      insert-AllConsistent key _ cache cache.storage
        (prepare_entry-IsConsistent sha256 header hashes (algo_or_default algo)
          (lookup key cache.entries) (h key))
        h
  step-AllConsistent (apply key frames) cache h =
      apply_to-AllConsistent key frames cache (lookup key cache.entries) (h key) h

  -- Whatever calls are made, and whether or not some of them raise, an entry that has been kept
  -- under SHA-256 holds no block under a hash that is not the block's own.
  pub run-AllConsistent :
      (requests : List Request) (cache : Cache)
      → AllConsistent cache
      → AllConsistent (run requests cache)
  unfolding run
  run-AllConsistent [] cache h = h
  run-AllConsistent (request ∷ requests) cache h =
      run-AllConsistent requests (step request cache) (step-AllConsistent request cache h)

prepared_fields :
    (key : Key) (header : Value) (hashes : Sides (Grid String)) (algo : String) (cache : Cache)
    (entry : Entry)
    → lookup key cache.entries ≡ some entry
    → entry.hash_algo ≡ algo_or_default algo
    → let next = prepare_entry header hashes (algo_or_default algo) (lookup key cache.entries) in
      (next.header ≡ header) × (next.fingerprint ≡ entry.fingerprint)
unfolding prepare_entry entry_for resize_entry
prepared_fields key header hashes algo cache entry found same =
    rw found (refl, rw ((eq_iff entry.hash_algo (algo_or_default algo)).1 same))

synced_of :
    (key : Key) (entry : Entry)
    → entry.fingerprint ≢ ""
    → synced_or_raise key (some entry) ≡ ok (synced key entry)
unfolding synced_or_raise
synced_of key entry kept = ground (arith, eq_iff entry.fingerprint "")

-- A data set that was synced stays available under its old fingerprint as soon as another version
-- of it has been prepared under the same algorithm: the header is the new one, and none of the new
-- blocks has arrived yet.
pub prepare_sync-stale :
    (key : Key) (header : Value) (hashes : Sides (Grid String)) (algo : String) (cache : Cache)
    (entry : Entry)
    → lookup key cache.entries ≡ some entry
    → entry.hash_algo ≡ algo_or_default algo
    → entry.fingerprint ≢ ""
    → (d : SyncedDataset) × (get_synced_dataset key (prepare_sync key header hashes algo cache).1
        ≡ ok d)
      × (d.header ≡ header)
      × (d.fingerprint ≡ entry.fingerprint)
unfolding get_synced_dataset prepare_sync synced
prepare_sync-stale key header hashes algo cache entry found same kept =
    let next = prepare_entry header hashes (algo_or_default algo) (lookup key cache.entries) in
    let (newer, older) = prepared_fields key header hashes algo cache entry found same in
    (
      synced key next,
      rw (lookup-insert_self key next cache.entries)
          (synced_of key next (λ e. kept (sym older ∙ e))),
      newer,
      older,
    )
