-- ===== src/Storage/Entries.antt =====
-- The entries of `Database` of services/backend/storage/fs_core.py, and `Node.read` and `Node.write` of
-- fs_node.py. `dumps` is `json.dumps`, or `none` where it raises; `loads` is `json.loads` of a text, or
-- `none` where it raises.
use neuralese.Prelude.{
  is_empty, ℕ, Bool, true, false, ◌||◌, not, Option, none, some, List, [], ◌∷◌, any, eqb, bytes_eq,
  ◌==◌, if◌then◌else◌, lookup, insert, Result, ok, err, ◌>>=◌, ◌>>◌, require,
}
use neuralese.Python.Values.{Value, null, text, bytes, object, field, end, get_or, truthy}
use neuralese.Python.Utf8.{is_utf8}
use neuralese.Storage.Paths.{PathText, split, normalize_path, strip_slashes}
use neuralese.Storage.Database.{Stored, raw, chars, Table}

-- What is raised: by `write`, by `_save_entry`, by `json.dumps`, by `decode`, by `json.loads`, and by
-- `entry.get` where the entry is no dictionary.
pub data StorageError : Type 0 where
  is_a_directory blob_requires_bytes not_json not_utf8 bad_json no_fields : StorageError

-- `path.endswith(suffix)`
unfoldable pub ends_with : List ℕ → List ℕ → Bool
ends_with suffix [] = is_empty suffix
ends_with suffix (c ∷ s) = suffix == c ∷ s || ends_with suffix s

abbrev pub dot_blob : List ℕ
dot_blob = b'.' ∷ b'b' ∷ b'l' ∷ b'o' ∷ b'b' ∷ []

abbrev pub dot_doc : List ℕ
dot_doc = b'.' ∷ b'd' ∷ b'o' ∷ b'c' ∷ []

abbrev pub blob_kind : List ℕ
blob_kind = b'b' ∷ b'l' ∷ b'o' ∷ b'b' ∷ []

abbrev pub doc_kind : List ℕ
doc_kind = b'd' ∷ b'o' ∷ b'c' ∷ []

unfoldable pub last_part : List PathText → PathText
last_part [] = []
last_part (part ∷ []) = part
last_part (part ∷ next ∷ parts) = last_part (next ∷ parts)

-- `Node.name`: `os.path.basename`, which is what stands behind the last slash
unfoldable pub name_of : PathText → PathText
name_of path = last_part (split (strip_slashes path))

unfoldable pub is_dir : PathText → Bool
is_dir path = not (any (λ c. eqb c b'.') (name_of path))

-- `kind = "doc" if self.is_doc else "blob"`
unfoldable pub kind_of : PathText → List ℕ
kind_of path = if ends_with dot_doc (name_of path) then doc_kind else blob_kind

-- `{"meta": {"kind": kind}, "content": content}`
unfoldable pub entry_with : List ℕ → Value → Value
entry_with kind content =
    object (field "meta" (object (field "kind" (text kind) end)) (field "content" content end))

module _ (dumps : Value → Option (List ℕ)) (loads : List ℕ → Option Value) where
  unfoldable pub save_blob : PathText → Value → Table → Result StorageError Table
  save_blob key (bytes written) table = ok (insert key (raw written) table)
  save_blob key other table = err blob_requires_bytes

  unfoldable pub save_doc : PathText → Option (List ℕ) → Table → Result StorageError Table
  save_doc key none table = err not_json
  save_doc key (some json) table = ok (insert key (chars json) table)

  -- `_save_entry`, whose metadata holds just the kind
  unfoldable pub save_entry : PathText → List ℕ → Value → Table → Result StorageError Table
  unfolding save_blob save_doc
  save_entry path kind content table =
      let key = normalize_path path in
      if ends_with dot_blob key
      then save_blob key content table
      else save_doc key (dumps (entry_with kind content)) table

  -- `Node.write`, at the path that the node was made with
  unfoldable pub write : PathText → Value → Table → Result StorageError Table
  write path content table =
      let node = normalize_path path in
      require (not (is_dir node)) is_a_directory >> save_entry node (kind_of node) content table

  unfoldable pub parsed : Option Value → Result StorageError Value
  parsed none = err bad_json
  parsed (some entry) = ok entry

  -- What `_get_entry` makes of the stored value, for a key that ends in ".blob" or does not.
  unfoldable pub entry_of : Bool → Option Stored → Result StorageError Value
  entry_of blob none = ok null
  entry_of true (some (raw written)) = ok (entry_with blob_kind (bytes written))
  entry_of true (some (chars s)) = ok (entry_with blob_kind (text s))
  entry_of false (some (raw written)) = require (is_utf8 written) not_utf8 >> parsed (loads written)
  entry_of false (some (chars s)) = parsed (loads s)

  -- `_get_entry`; no entry is `null`
  unfoldable pub get_entry : PathText → Table → Result StorageError Value
  get_entry key table = entry_of (ends_with dot_blob key) (lookup (normalize_path key) table)

  -- `if not entry: return None` and `entry.get("content")`
  unfoldable pub content_of : Value → Result StorageError Value
  content_of (object fields) = ok (get_or fields "content" null)
  content_of entry = if truthy entry then err no_fields else ok null

  -- `Node.read`, at the path that the node was made with
  unfoldable pub read : PathText → Table → Result StorageError Value
  read path table = get_entry (normalize_path path) table >>= content_of
