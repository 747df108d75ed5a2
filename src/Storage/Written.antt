-- ===== src/Storage/Written.antt =====
-- What `Node.write` of services/backend/storage/fs_node.py wrote is what `Node.read` reads.
use neuralese.Prelude.{
  ℕ, ◌≡◌, refl, sym, ap, ◌∙◌, Bool, true, false, not, Option, none, some, List, [], ◌∷◌, ◌++◌,
  bytes_eq, bytes_beq_iff, ◌==◌, if◌then◌else◌, lookup, insert, lookup-insert, Result, ok, ◌>>=◌,
  ◌>>◌, require, arith, Bool-cases, inl, inr, ◌⊎◌,
}
use neuralese.Python.Values.{Value, bytes, get_or, get?}
use neuralese.Storage.Paths.{PathText, normalize_path}
use neuralese.Storage.Split.{normalize_path_idem}
use neuralese.Storage.Database.{Stored, raw, chars, Table}
use neuralese.Storage.Entries.{
  StorageError, ends_with, dot_blob, is_dir, kind_of, entry_with, save_blob, save_doc, save_entry,
  write, parsed, entry_of, get_entry, content_of, read,
}

ends_with-append : (s stem : List ℕ) → ends_with s (stem ++ s) ≡ true
unfolding ends_with
ends_with-append [] [] = refl
ends_with-append (c ∷ s) [] = rw ((bytes_beq_iff (c ∷ s) (c ∷ s)).1 refl) refl
ends_with-append s (c ∷ stem) = rw (ends_with-append s stem) (ground arith)

module _ (dumps : Value → Option (List ℕ)) (loads : List ℕ → Option Value) where
  -- What a reader of a key makes of what is stored there.
  abbrev view : PathText → Option Stored → Result StorageError Value
  view key stored = entry_of dumps loads (ends_with dot_blob key) stored >>= content_of dumps loads

  read-view :
      (path : PathText) (table : Table)
      → read dumps loads path table
        ≡ view (normalize_path path) (lookup (normalize_path path) table)
  unfolding read get_entry
  read-view path table =
      unfold read get_entry in
      ap (λ (p : PathText). view (normalize_path path) (lookup p table))
        ((normalize_path_idem path).1)

  -- That a table is another one with a value stored at a key, which is read there as the content, and
  -- is just its bytes for a key that ends in ".blob".
  Holds : PathText → Value → Table → Table → Type 0
  Holds key content table next =
      (stored : Stored) × (insert key stored table ≡ next)
      × (view key (some stored) ≡ ok content)
      × ((stem : PathText)
          → key ≡ stem ++ dot_blob
          → (written : List ℕ) × (content ≡ bytes written) × (stored ≡ raw written))

  content_of_entry :
      (kind : List ℕ) (content : Value)
      → content_of dumps loads (entry_with kind content) ≡ ok content
  unfolding content_of entry_with get_or get?
  content_of_entry kind content = refl

  save_blob-Holds :
      (key : PathText) (content : Value) (table next : Table)
      → ends_with dot_blob key ≡ true
      → save_blob dumps loads key content table ≡ ok next
      → Holds key content table next
  unfolding Holds save_blob entry_of
  save_blob-Holds key (bytes written) table next e h = (
    raw written,
    ground (arith, h),
    rw e (content_of_entry _ (bytes written)),
    λ stem same. (written, refl, refl),
  )
  save_blob-Holds key content table next e h = absurd (ground (arith, h))

  save_doc-Holds :
      (key : PathText) (kind : List ℕ) (content : Value) (table next : Table)
      → ((json : List ℕ)
          → dumps (entry_with kind content) ≡ some json
          → loads json ≡ some (entry_with kind content))
      → ends_with dot_blob key ≡ false
      → (o : Option (List ℕ)) → dumps (entry_with kind content) ≡ o
      → save_doc dumps loads key o table ≡ ok next
      → Holds key content table next
  unfolding Holds save_doc entry_of parsed
  save_doc-Holds key kind content table next inverts e none d h = absurd (ground (arith, h))
  save_doc-Holds key kind content table next inverts e (some json) d h = (
    chars json,
    ground (arith, h),
    rw (e, inverts json d) (content_of_entry kind content),
    λ stem same. absurd (
        ground (
          arith,
          e,
          ends_with-append dot_blob stem,
          ap (λ (k : PathText). ends_with dot_blob k) same,
        )),
  )

  write-Holds :
      (path : PathText) (content : Value) (table next : Table)
      → ((json : List ℕ)
          → dumps (entry_with (kind_of (normalize_path path)) content) ≡ some json
          → loads json ≡ some (entry_with (kind_of (normalize_path path)) content))
      → write dumps loads path content table ≡ ok next
      → Holds (normalize_path path) content table next
  unfolding write save_entry
  write-Holds path content table next inverts h =
      guarded (not (is_dir node)) (Bool-cases (ends_with dot_blob (normalize_path node))) h
    where
      node : PathText
      node = normalize_path path

      kind : List ℕ
      kind = kind_of node

      same : normalize_path node ≡ node
      same = (normalize_path_idem path).1

      save : Bool → PathText → Result StorageError Table
      save b key =
          if b
          then save_blob dumps loads key content table
          else save_doc dumps loads key (dumps (entry_with kind content)) table

      saved :
          (key : PathText)
          → key ≡ node
          → (b : Bool) → ends_with dot_blob key ≡ b
          → save b key ≡ ok next
          → Holds key content table next
      saved key e true s h = save_blob-Holds key content table next s h
      saved key e false s h = save_doc-Holds key kind content table next inverts s _ refl h

      guarded :
          (b : Bool)
          → ((ends_with dot_blob (normalize_path node)) ≡ true)
            ⊎ ((ends_with dot_blob (normalize_path node)) ≡ false)
          → (require b StorageError.is_a_directory
              >> save (ends_with dot_blob (normalize_path node)) (normalize_path node))
            ≡ ok next
          → Holds node content table next
      guarded true c h = rw (sym same) (saved (normalize_path node) same _ refl h)
      guarded false c h = absurd (ground (arith, h))

  write-is_dir :
      (path : PathText) (content : Value) (table next : Table)
      → write dumps loads path content table ≡ ok next
      → is_dir (normalize_path path) ≡ false
  unfolding write
  write-is_dir path content table next h = guarded (is_dir (normalize_path path)) _ h
    where
      guarded :
          (b : Bool) (r : Result StorageError Table)
          → (require (not b) StorageError.is_a_directory >> r) ≡ ok next
          → b ≡ false
      guarded true r g = absurd (ground (arith, g))
      guarded false r g = refl

  -- What can be written to a path is what is read at every spelling of the path, and at all other paths
  -- what is read does not change, if the JSON parser inverts the printer on the entry that holds the
  -- content wherever the printer does not raise. The path is then not that of a directory, and for one
  -- that ends in ".blob" the content is bytes, which are stored as they are.
  pub read-write :
      (path other : PathText) (content : Value) (table next : Table)
      → ((json : List ℕ)
          → dumps (entry_with (kind_of (normalize_path path)) content) ≡ some json
          → loads json ≡ some (entry_with (kind_of (normalize_path path)) content))
      → write dumps loads path content table ≡ ok next
      → (read dumps loads other next ≡ (
          if normalize_path path == normalize_path other
          then ok content
          else read dumps loads other table))
        × (is_dir (normalize_path path) ≡ false)
        × ((stem : PathText)
            → normalize_path path ≡ stem ++ dot_blob
            → (written : List ℕ) × (content ≡ bytes written)
              × (lookup (normalize_path path) next ≡ some (raw written)))
  unfolding Holds
  read-write path other content table next inverts h =
      let held = write-Holds path content table next inverts h in
      (from held, write-is_dir path content table next h, kept held)
    where
      at : PathText
      at = normalize_path other

      chosen :
          (stored : Stored)
          → view (normalize_path path) (some stored) ≡ ok content
          → ((normalize_path path == at) ≡ true) ⊎ ((normalize_path path == at) ≡ false)
          → view at (if normalize_path path == at then some stored else lookup at table)
            ≡ (if normalize_path path == at then ok content else read dumps loads other table)
      chosen stored v (inl e) = rw (e, sym ((bytes_beq_iff (normalize_path path) at).0 e)) v
      chosen stored v (inr e) = rw e (sym (read-view other table))

      from :
          Holds (normalize_path path) content table next
          → read dumps loads other next
            ≡ (if normalize_path path == at then ok content else read dumps loads other table)
      from (stored, e, v, w) =
          read-view other next
          ∙ (ap (λ (t : Table). view at (lookup at t)) (sym e)
              ∙ (ap (view at) (lookup-insert (normalize_path path) at stored table)
                  ∙ chosen stored v (Bool-cases (normalize_path path == at))))

      stored_there :
          (stored : Stored)
          → lookup (normalize_path path) (insert (normalize_path path) stored table) ≡ some stored
      stored_there stored =
          lookup-insert (normalize_path path) (normalize_path path) stored table
          ∙ rw ((bytes_beq_iff (normalize_path path) (normalize_path path)).1 refl) refl

      kept :
          Holds (normalize_path path) content table next
          → (stem : PathText) → normalize_path path ≡ stem ++ dot_blob
          → (written : List ℕ) × (content ≡ bytes written)
            × (lookup (normalize_path path) next ≡ some (raw written))
      kept (stored, e, v, w) stem same =
          let (written, c, r) = w stem same in
          (
            written,
            c,
            ap (λ (t : Table). lookup (normalize_path path) t) (sym e)
                ∙ (stored_there stored ∙ ap some r),
          )
