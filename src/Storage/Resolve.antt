-- ===== src/Storage/Resolve.antt =====
-- `Node._resolve_rel` of services/backend/storage/fs_node.py stays below its node.
use neuralese.Prelude.{
  is_empty, ◌≡◌, refl, sym, ap, ◌∙◌, Bool, true, false, ◌&&◌, ◌||◌, not, List, [], ◌∷◌, ◌++◌,
  filter, any, bytes_eq, ◌==◌, if◌then◌else◌, All, arith, either_branch, Result, ok, ◌>>◌, require,
}
use mathlib.Core.List.{append_assoc}
use neuralese.Storage.Paths.{
  PathText, PathError, slash, unix, replace, split, join, parts_of, normalize_path, strip_slashes,
  starts_with, dot, dot_dot, is_absolute, relative_parts, resolve_rel,
}
use neuralese.Storage.Split.{
  IsPlain, IsPart, LastPlain, split_part, split-IsPlain, replace-unix, replace-append, replace-join,
  filter_parts, parts_of-join, parts_of-IsPart, append-LastPlain, join-LastPlain, join-empty,
  normalize_path-parts, normalize_path_idem, strip_slashes-LastPlain,
}

filter-append :
    (p : PathText → Bool) (xs ys : List PathText) → filter p (xs ++ ys) ≡ filter p xs ++ filter p ys
filter-append p [] ys = refl
filter-append p (x ∷ xs) ys = ground (arith, filter-append p xs ys)

split-joined :
    (part : PathText) (parts : List PathText) (t : PathText)
    → All IsPart (part ∷ parts)
    → split (join (part ∷ parts) ++ slash ∷ t) ≡ (part ∷ parts) ++ split t
unfolding join IsPart
split-joined part [] t h = split_part part t h.0.1
split-joined part (next ∷ parts) t h =
    ap split (append_assoc part (slash ∷ join (next ∷ parts)) (slash ∷ t))
    ∙ (split_part part (join (next ∷ parts) ++ slash ∷ t) h.0.1
        ∙ ap (◌∷◌ part) (split-joined next parts t h.1))

parts_of_root :
    (t : PathText) → parts_of (strip_slashes (slash ∷ join []) ++ slash ∷ t) ≡ parts_of t
unfolding strip_slashes join parts_of replace unix split
parts_of_root t = refl

parts_of-slash : (s : PathText) → parts_of (slash ∷ s) ≡ parts_of s
unfolding parts_of replace unix split
parts_of-slash s = refl

parts_of_behind :
    (part : PathText) (parts : List PathText) (t : PathText)
    → All IsPart (part ∷ parts)
    → parts_of (join (part ∷ parts) ++ slash ∷ t) ≡ (part ∷ parts) ++ parts_of t
unfolding parts_of
parts_of_behind part parts t h =
    let plain : replace (join (part ∷ parts) ++ slash ∷ t)
        ≡ join (part ∷ parts) ++ slash ∷ replace t =
      rw (replace-append (join (part ∷ parts)) (slash ∷ t), replace-join (part ∷ parts) h)
        (unfold replace unix in refl) in
    rw
      (
        plain,
        split-joined part parts (replace t) h,
        filter-append (λ part. not (is_empty part)) (part ∷ parts) (split (replace t)),
        filter_parts (part ∷ parts) h,
      )
      refl

-- What stands behind a joined path and a slash adds its own parts.
parts_of-joined :
    (parts : List PathText) (t : PathText)
    → All IsPart parts
    → parts_of (strip_slashes (slash ∷ join parts) ++ slash ∷ t) ≡ parts ++ parts_of t
parts_of-joined [] t h = parts_of_root t
parts_of-joined (part ∷ parts) t h =
    let last : LastPlain (slash ∷ join (part ∷ parts)) =
      append-LastPlain (slash ∷ []) (join (part ∷ parts)) (join-empty part parts h)
        (join-LastPlain (part ∷ parts) h) in
    rw (strip_slashes-LastPlain (slash ∷ join (part ∷ parts)) last)
      (parts_of-slash (join (part ∷ parts) ++ slash ∷ t) ∙ parts_of_behind part parts t h)

relative_filter :
    (parts : List PathText)
    → All (All IsPlain) parts
    → All IsPart (filter (λ part. not (is_empty part) && not (part == dot)) parts)
unfolding IsPart
relative_filter [] h = tt
relative_filter ([] ∷ parts) h = relative_filter parts h.1
relative_filter ((c ∷ part) ∷ parts) h =
    either_branch (All IsPart) (not ((c ∷ part) == dot)) ((refl, h.0), relative_filter parts h.1)
      (relative_filter parts h.1)

relative_parts-IsPart : (rel : PathText) → All IsPart (relative_parts rel)
unfolding relative_parts
relative_parts-IsPart rel =
    relative_filter (split (replace rel)) (split-IsPlain (replace rel) (replace-unix rel))

guards :
    {A : Type 0} (a b c : Bool) (x y : A)
    → (require a PathError.absolute_path
        >> (require b PathError.parent_traversal >> (require c PathError.escapes_base >> ok x)))
      ≡ ok y
    → (b ≡ true) × (x ≡ y)
guards true true true x y h = ground (arith, h)
guards true true false x y h = absurd (ground (arith, h))
guards true false c x y h = absurd (ground (arith, h))
guards false b c x y h = absurd (ground (arith, h))

-- A relative path that is accepted leads to the parts of its node followed by its own parts, its
-- dots left out, and none of these is "..", so what it leads to stands below the node.
pub resolve_rel-parts_of :
    (path rel full : PathText)
    → normalize_path path ≡ path
    → (is_empty rel || rel == dot) ≡ false
    → resolve_rel path rel ≡ ok full
    → (parts_of full ≡ parts_of path ++ relative_parts rel)
      × (any (λ part. part == dot_dot) (relative_parts rel) ≡ false)
unfolding resolve_rel
resolve_rel-parts_of path rel full normal named h =
    let e : path ≡ slash ∷ join (parts_of path) = sym normal ∙ normalize_path-parts path in
    let own : parts_of (join (relative_parts rel)) ≡ relative_parts rel =
      sym (parts_of-slash (join (relative_parts rel)))
      ∙ parts_of-join (relative_parts rel) (relative_parts-IsPart rel) in
    let joined : parts_of (strip_slashes path ++ slash ∷ join (relative_parts rel))
        ≡ parts_of path ++ relative_parts rel =
      ap (λ (p : PathText). parts_of (strip_slashes p ++ slash ∷ join (relative_parts rel))) e
      ∙ (parts_of-joined (parts_of path) (join (relative_parts rel)) (parts_of-IsPart path)
          ∙ ap (λ (ps : List PathText). parts_of path ++ ps) own) in
    let full_path : PathText =
      normalize_path (strip_slashes path ++ slash ∷ join (relative_parts rel)) in
    let (above, same) =
      guards (not (is_absolute rel)) (not (any (λ part. part == dot_dot) (relative_parts rel)))
        (starts_with (strip_slashes path ++ slash ∷ []) full_path) full_path full
        (otherwise (ok path)
          (require (not (is_absolute rel)) PathError.absolute_path
            >> (require (not (any (λ part. part == dot_dot) (relative_parts rel)))
                  PathError.parent_traversal
                >> (require (starts_with (strip_slashes path ++ slash ∷ []) full_path)
                      PathError.escapes_base
                    >> ok full_path)))
          (ok full) (is_empty rel || rel == dot) named h) in
    (
      ap parts_of (sym same)
          ∙ ((normalize_path_idem (strip_slashes path ++ slash ∷ join (relative_parts rel))).0
              ∙ joined),
      not_true (any (λ part. part == dot_dot) (relative_parts rel)) above,
    )
  where
    otherwise :
        (x y z : Result PathError PathText) (b : Bool)
        → b ≡ false
        → (if b then x else y) ≡ z
        → y ≡ z
    otherwise x y z true e h = absurd (ground (arith, e))
    otherwise x y z false e h = h

    not_true : (b : Bool) → not b ≡ true → b ≡ false
    not_true b h = ground (arith, h)
