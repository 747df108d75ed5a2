-- ===== src/Storage/Database.antt =====
-- The keys of `Database` of services/backend/storage/fs_core.py, over RocksDB's table as a dictionary.
use neuralese.Prelude.{
  ℕ, ◌≡◌, Bool, true, false, ◌||◌, Option, none, some, List, [], ◌∷◌, ◌++◌, bytes_eq, bytes_beq_iff,
  ◌==◌, if◌then◌else◌, Dict, lookup, erase, lookup-erase, arith, Bool-cases, inl, inr, ◌⊎◌,
  beq_self,
}
use neuralese.Storage.Paths.{PathText, slash, normalize_path, strip_slashes, starts_with}

-- What RocksDB holds at a key: bytes, or a text, which is here the list of its UTF-8 bytes.
pub data Stored : Type 0 where
  raw : List ℕ → Stored
  chars : List ℕ → Stored

abbrev pub Table : Type 0
Table = Dict PathText Stored

-- `path.rstrip("/") + "/"`
unfoldable pub below : PathText → PathText
below path = strip_slashes path ++ slash ∷ []

-- `del db[key]` for the keys under a prefix
unfoldable pub delete_below : PathText → Table → Table
delete_below prefix [] = []
delete_below prefix ((key, value) ∷ table) =
    let rest = delete_below prefix table in
    if starts_with prefix key then rest else (key, value) ∷ rest

unfoldable pub delete : PathText → Table → Table
delete path table = let key = normalize_path path in delete_below (below key) (erase key table)

-- Whether some key stands under a prefix.
unfoldable pub any_below : PathText → Table → Bool
any_below prefix [] = false
any_below prefix ((key, value) ∷ table) = starts_with prefix key || any_below prefix table

abbrev is_some : {A : Type 0} → Option A → Bool
is_some none = false
is_some (some a) = true

unfoldable pub exists : PathText → Table → Bool
exists path table =
    let key = normalize_path path in is_some (lookup key table) || any_below (below key) table

lookup-delete_below :
    (prefix key : PathText) (table : Table)
    → lookup key (delete_below prefix table)
      ≡ (if starts_with prefix key then none else lookup key table)
unfolding delete_below
lookup-delete_below prefix key [] = ground arith
lookup-delete_below prefix key ((k, value) ∷ table) =
    go (Bool-cases (k == key)) (lookup-delete_below prefix key table)
  where
    go :
        ((k == key) ≡ true) ⊎ ((k == key) ≡ false)
        → lookup key (delete_below prefix table)
          ≡ (if starts_with prefix key then none else lookup key table)
        → lookup key (
            let rest = delete_below prefix table in
            if starts_with prefix k then rest else (k, value) ∷ rest)
          ≡ (if starts_with prefix key
              then none
              else (if k == key then some value else lookup key table))
    go (inl e) rest = rw (e, (bytes_beq_iff k key).0 e) (ground (arith, rest, beq_self key))
    go (inr e) rest = rw e (ground (arith, rest, e))

pub lookup_deleted :
    (path key : PathText) (table : Table)
    → lookup key (delete path table) ≡ (
        if normalize_path path == key || starts_with (below (normalize_path path)) key
        then none
        else lookup key table)
unfolding delete
lookup_deleted path key table = ground (
  arith,
  lookup-delete_below (below (normalize_path path)) key (erase (normalize_path path) table),
  lookup-erase (normalize_path path) key table,
)
