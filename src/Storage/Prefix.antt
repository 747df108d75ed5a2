-- ===== src/Storage/Prefix.antt =====
-- Which keys `Database.delete` of services/backend/storage/fs_core.py removes, by the parts of paths.
use neuralese.Prelude.{
  is_empty, ◌≡◌, refl, sym, ap, ◌∙◌, Bool, true, false, ◌&&◌, ◌||◌, none, List, [], ◌∷◌, ◌++◌,
  bytes_eq, bytes_beq, ◌==◌, if◌then◌else◌, All, lookup, arith,
}
use mathlib.Core.List.{append_assoc}
use neuralese.Storage.Paths.{
  PathText, slash, join, parts_of, normalize_path, strip_slashes, starts_with,
}
use neuralese.Storage.Split.{
  IsPlain, IsPart, parts_of-IsPart, append-LastPlain, join-LastPlain, join-empty,
  normalize_path-parts, strip_slashes-LastPlain,
}
use neuralese.Storage.Database.{Table, below, delete, lookup_deleted}

-- Whether the first path, by its parts, is the second one or stands above it.
abbrev pub is_prefix : List PathText → List PathText → Bool
is_prefix [] ks = true
is_prefix (p ∷ ps) [] = false
is_prefix (p ∷ ps) (k ∷ ks) = p == k && is_prefix ps ks

-- The parts, each with a slash behind it.
abbrev terminated : List PathText → PathText
terminated [] = []
terminated (p ∷ ps) = p ++ slash ∷ terminated ps

starts_with_parts :
    (p k s t : PathText)
    → All IsPlain p
    → All IsPlain k
    → starts_with (p ++ slash ∷ s) (k ++ slash ∷ t) ≡ (bytes_beq p k && starts_with s t)
unfolding starts_with IsPlain bytes_beq
starts_with_parts [] [] s t h i = refl
starts_with_parts [] (d ∷ k) s t h i = ground (arith, i.0.0)
starts_with_parts (c ∷ p) [] s t h i = ground (arith, h.0.0)
starts_with_parts (c ∷ p) (d ∷ k) s t h i = ground (arith, starts_with_parts p k s t h.1 i.1)

starts_with_plain : (p k s : PathText) → All IsPlain k → starts_with (p ++ slash ∷ s) k ≡ false
unfolding starts_with IsPlain
starts_with_plain [] [] s i = refl
starts_with_plain [] (d ∷ k) s i = ground (arith, i.0.0)
starts_with_plain (c ∷ p) [] s i = refl
starts_with_plain (c ∷ p) (d ∷ k) s i = ground (arith, starts_with_plain p k s i.1)

beq_parts :
    (p k s t : PathText)
    → All IsPlain p
    → All IsPlain k
    → bytes_beq (p ++ slash ∷ s) (k ++ slash ∷ t) ≡ (bytes_beq p k && bytes_beq s t)
unfolding IsPlain bytes_beq
beq_parts [] [] s t h i = refl
beq_parts [] (d ∷ k) s t h i = ground (arith, i.0.0)
beq_parts (c ∷ p) [] s t h i = ground (arith, h.0.0)
beq_parts (c ∷ p) (d ∷ k) s t h i = ground (arith, beq_parts p k s t h.1 i.1)

beq_plain : (p k s : PathText) → All IsPlain k → bytes_beq (p ++ slash ∷ s) k ≡ false
unfolding IsPlain bytes_beq
beq_plain [] [] s i = refl
beq_plain [] (d ∷ k) s i = ground (arith, i.0.0)
beq_plain (c ∷ p) [] s i = refl
beq_plain (c ∷ p) (d ∷ k) s i = ground (arith, beq_plain p k s i.1)

plain_beq : (p k t : PathText) → All IsPlain p → bytes_beq p (k ++ slash ∷ t) ≡ false
unfolding IsPlain bytes_beq
plain_beq [] [] t h = refl
plain_beq [] (d ∷ k) t h = refl
plain_beq (c ∷ p) [] t h = ground (arith, h.0.0)
plain_beq (c ∷ p) (d ∷ k) t h = ground (arith, plain_beq p k t h.1)

beq_empty : (s : PathText) → is_empty s ≡ false → bytes_beq s [] ≡ false
unfolding bytes_beq
beq_empty [] h = absurd (ground (arith, h))
beq_empty (c ∷ s) h = refl

join-terminated :
    (p : PathText) (ps : List PathText) → join (p ∷ ps) ++ slash ∷ [] ≡ terminated (p ∷ ps)
unfolding join
join-terminated p [] = refl
join-terminated p (q ∷ ps) =
    append_assoc p (slash ∷ join (q ∷ ps)) (slash ∷ [])
    ∙ ap (λ (s : PathText). p ++ slash ∷ s) (join-terminated q ps)

-- The text below which the keys under a path stand.
below-join : (ps : List PathText) → All IsPart ps → below (slash ∷ join ps) ≡ slash ∷ terminated ps
unfolding below
below-join [] h = unfold join strip_slashes in refl
below-join (p ∷ ps) h =
    rw
      (strip_slashes-LastPlain (slash ∷ join (p ∷ ps)) (
        append-LastPlain (slash ∷ []) (join (p ∷ ps)) (join-empty p ps h)
          (join-LastPlain (p ∷ ps) h)))
      (ap (◌∷◌ slash) (join-terminated p ps))

-- A joined path is another one or starts it if its parts start the other's.
join-is_prefix :
    (ps ks : List PathText)
    → All IsPart ps
    → All IsPart ks
    → (bytes_beq (join ps) (join ks) || starts_with (terminated ps) (join ks)) ≡ is_prefix ps ks
unfolding IsPart join
join-is_prefix [] ks h i = unfold starts_with in ground arith
join-is_prefix (p ∷ ps) [] h i =
    rw (beq_empty (join (p ∷ ps)) (join-empty p ps h), starts_with_plain p [] (terminated ps) tt)
      refl
join-is_prefix (p ∷ []) (k ∷ []) h i = rw (starts_with_plain p k [] i.0.1) (ground arith)
join-is_prefix (p ∷ q ∷ ps) (k ∷ []) h i =
    rw (beq_plain p k (join (q ∷ ps)) i.0.1, starts_with_plain p k (terminated (q ∷ ps)) i.0.1)
      (ground arith)
join-is_prefix (p ∷ []) (k ∷ l ∷ ks) h i =
    rw (plain_beq p k (join (l ∷ ks)) h.0.1, starts_with_parts p k [] (join (l ∷ ks)) h.0.1 i.0.1)
      (unfold starts_with in ground arith)
join-is_prefix (p ∷ q ∷ ps) (k ∷ l ∷ ks) h i =
    rw
      (
        beq_parts p k (join (q ∷ ps)) (join (l ∷ ks)) h.0.1 i.0.1,
        starts_with_parts p k (terminated (q ∷ ps)) (join (l ∷ ks)) h.0.1 i.0.1,
        sym (join-is_prefix (q ∷ ps) (l ∷ ks) h.1 i.1),
      )
      (ground arith)

-- Deleting a path removes the entries of the normal keys whose parts are the parts of the path,
-- followed by any number of other parts, and leaves those of all other normal keys.
pub lookup-delete :
    (path key : PathText) (table : Table)
    → normalize_path key ≡ key
    → lookup key (delete path table)
      ≡ (if is_prefix (parts_of path) (parts_of key) then none else lookup key table)
lookup-delete path key table normal =
    lookup_deleted path key table ∙ ap (λ (b : Bool). if b then none else lookup key table) removed
  where
    at : key ≡ slash ∷ join (parts_of key)
    at = sym normal ∙ normalize_path-parts key

    removed :
        (normalize_path path == key || starts_with (below (normalize_path path)) key)
        ≡ is_prefix (parts_of path) (parts_of key)
    removed =
        ap
          (λ (s : PathText).
            bytes_beq (normalize_path path) s || starts_with (below (normalize_path path)) s)
          at
        ∙ (rw (normalize_path-parts path, below-join (parts_of path) (parts_of-IsPart path))
              (unfold bytes_beq starts_with in refl)
            ∙ join-is_prefix (parts_of path) (parts_of key) (parts_of-IsPart path)
                (parts_of-IsPart key))
