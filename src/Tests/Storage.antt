-- ===== src/Tests/Storage.antt =====
-- Paths and entries of services/backend/storage.
use neuralese.Prelude.{
  ℕ, ◌≡◌, refl, false, Option, none, some, List, [], ◌∷◌, ◌++◌, any, bytes_eq, bytes_beq, ◌==◌,
  lookup, ok, err, if◌then◌else◌,
}
use neuralese.Python.Values.{Value, get_or, get?}
use neuralese.Storage.Paths.{
  PathText, slash, unix, replace, push, split, join, parts_of, drop_last_slash, normalize_path,
  strip_slashes, starts_with, dot_dot, is_absolute, relative_parts, resolve_rel,
}
use neuralese.Storage.Split.{normalize_path_idem}
use neuralese.Storage.Resolve.{resolve_rel-parts_of}
use neuralese.Storage.Database.{Table, raw, chars, below, delete, delete_below}
use neuralese.Storage.Prefix.{is_prefix, lookup-delete}
use neuralese.Storage.Entries.{
  StorageError, dot_doc, dot_blob, doc_kind, ends_with, last_part, name_of, is_dir, kind_of,
  entry_with, save_blob, save_doc, save_entry, write, entry_of, get_entry, content_of, read,
}
use neuralese.Storage.Written.{read-write}

-- "/a"
abbrev node : PathText
node = slash ∷ b'a' ∷ []

-- "b\c/./d"
abbrev rel : PathText
rel = b'b' ∷ 92 ∷ b'c' ∷ slash ∷ b'.' ∷ slash ∷ b'd' ∷ []

-- "/a/b/c/d"
abbrev full : PathText
full = slash ∷ b'a' ∷ slash ∷ b'b' ∷ slash ∷ b'c' ∷ slash ∷ b'd' ∷ []

node_normal : normalize_path node ≡ node
unfolding normalize_path drop_last_slash join parts_of split replace unix push
node_normal = refl

resolves : resolve_rel node rel ≡ ok full
unfolding resolve_rel relative_parts normalize_path drop_last_slash join parts_of split replace unix
    push strip_slashes starts_with is_absolute bytes_beq
resolves = refl

resolve_rel-parts_of_example :
    (parts_of full ≡ parts_of node ++ relative_parts rel)
    × (any (λ part. part == dot_dot) (relative_parts rel) ≡ false)
resolve_rel-parts_of_example =
    resolve_rel-parts_of node rel full node_normal (unfold bytes_beq in refl) resolves

normalize_path_idem_example :
    (parts_of (normalize_path rel) ≡ parts_of rel)
    × (normalize_path (normalize_path rel) ≡ normalize_path rel)
normalize_path_idem_example = normalize_path_idem rel

-- "/ab", which is not below "/a"
abbrev beside : PathText
beside = slash ∷ b'a' ∷ b'b' ∷ []

abbrev table : Table
table = (node, chars []) ∷ (full, chars (1 ∷ [])) ∷ (beside, chars []) ∷ []

full_normal : normalize_path full ≡ full
unfolding normalize_path drop_last_slash join parts_of split replace unix push
full_normal = refl

lookup-delete_example :
    lookup full (delete node table)
    ≡ (if is_prefix (parts_of node) (parts_of full) then none else lookup full table)
lookup-delete_example = lookup-delete node full table full_normal

deletes : delete node table ≡ (beside, chars []) ∷ []
unfolding delete delete_below below normalize_path drop_last_slash join parts_of split replace unix
    push strip_slashes starts_with bytes_beq
deletes = refl

-- "/d.doc"
abbrev document : PathText
document = slash ∷ b'd' ∷ dot_doc

abbrev dumps : Value → Option (List ℕ)
dumps v = some (9 ∷ [])

abbrev loads : List ℕ → Option Value
loads json = some (entry_with doc_kind Value.null)

abbrev written_table : Table
written_table = (document, chars (9 ∷ [])) ∷ []

document_kind : kind_of (normalize_path document) ≡ doc_kind
unfolding kind_of name_of last_part normalize_path drop_last_slash join parts_of split replace unix
    push strip_slashes ends_with bytes_beq
document_kind = refl

inverts :
    (json : List ℕ)
    → dumps (entry_with (kind_of (normalize_path document)) Value.null) ≡ some json
    → loads json ≡ some (entry_with (kind_of (normalize_path document)) Value.null)
inverts json e = rw document_kind refl

writes : write dumps loads document Value.null [] ≡ ok written_table
unfolding write save_entry save_doc save_blob is_dir kind_of name_of last_part normalize_path
    drop_last_slash join parts_of split replace unix push strip_slashes ends_with bytes_beq
writes = refl

read-write_example :
    (read dumps loads (b'd' ∷ dot_doc) written_table ≡ (
      if normalize_path document == normalize_path (b'd' ∷ dot_doc)
      then ok Value.null
      else read dumps loads (b'd' ∷ dot_doc) []))
    × (is_dir (normalize_path document) ≡ false)
    × ((stem : PathText)
        → normalize_path document ≡ stem ++ dot_blob
        → (written : List ℕ) × (Value.null ≡ Value.bytes written)
          × (lookup (normalize_path document) written_table ≡ some (raw written)))
read-write_example =
    read-write dumps loads document (b'd' ∷ dot_doc) Value.null [] written_table inverts writes

-- "/d.blob"
abbrev blob_path : PathText
blob_path = slash ∷ b'd' ∷ dot_blob

blob_rejects : write dumps loads blob_path Value.null [] ≡ err StorageError.blob_requires_bytes
unfolding write save_entry save_doc save_blob is_dir kind_of name_of last_part normalize_path
    drop_last_slash join parts_of split replace unix push strip_slashes ends_with bytes_beq
blob_rejects = refl

blob_reads : read dumps loads blob_path ((blob_path, raw (7 ∷ [])) ∷ []) ≡ ok (Value.bytes (7 ∷ []))
unfolding read get_entry entry_of entry_with content_of get_or get? is_dir kind_of name_of last_part
    normalize_path drop_last_slash join parts_of split replace unix push strip_slashes ends_with
    bytes_beq
blob_reads = refl
