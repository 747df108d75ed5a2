-- ===== src/Storage/Split.antt =====
-- What `normalize_path` of services/backend/storage/fs_utils.py does to the parts of a path.
use neuralese.Prelude.{
  is_empty, ℕ, ◌≡◌, refl, sym, ap, ◌∙◌, Bool, true, false, not, List, [], ◌∷◌, ◌++◌, filter, eqb,
  bytes_eq, if◌then◌else◌, All, arith,
}
use neuralese.Storage.Paths.{
  PathText, slash, unix, replace, push, split, join, parts_of, drop_last_slash, normalize_path,
  strip_slashes,
}

-- A part of a normal path: not empty, with neither kind of slash.
unfoldable pub IsPlain : ℕ → Type 0
IsPlain c = (eqb c slash ≡ false) × (eqb c 92 ≡ false)

unfoldable pub IsPart : PathText → Type 0
IsPart part = (is_empty part ≡ false) × All IsPlain part

pub replace-append : (s t : PathText) → replace (s ++ t) ≡ replace s ++ replace t
unfolding replace
replace-append [] t = refl
replace-append (c ∷ s) t = rw (replace-append s t)

replace_plain : (s : PathText) → All IsPlain s → replace s ≡ s
unfolding replace unix IsPlain
replace_plain [] h = refl
replace_plain (c ∷ s) h = rw (h.0.1, replace_plain s h.1) refl

split_plain : (s : PathText) → All IsPlain s → split s ≡ s ∷ []
unfolding split push IsPlain
split_plain [] h = refl
split_plain (c ∷ s) h = rw (h.0.0, split_plain s h.1) refl

pub split_part : (s t : PathText) → All IsPlain s → split (s ++ slash ∷ t) ≡ s ∷ split t
unfolding split push IsPlain
split_part [] t h = refl
split_part (c ∷ s) t h = rw (h.0.0, split_part s t h.1) refl

-- Splitting what was joined gives the parts back.
split-join :
    (part : PathText) (parts : List PathText)
    → All IsPart (part ∷ parts)
    → split (join (part ∷ parts)) ≡ part ∷ parts
unfolding join IsPart
split-join part [] h = split_plain part h.0.1
split-join part (next ∷ parts) h =
    split_part part (join (next ∷ parts)) h.0.1 ∙ ap (◌∷◌ part) (split-join next parts h.1)

pub replace-join : (parts : List PathText) → All IsPart parts → replace (join parts) ≡ join parts
unfolding join IsPart replace unix
replace-join [] h = refl
replace-join (part ∷ []) h = replace_plain part h.0.1
replace-join (part ∷ next ∷ parts) h =
    rw
      (
        replace-append part (slash ∷ join (next ∷ parts)),
        replace_plain part h.0.1,
        replace-join (next ∷ parts) h.1,
      )
      refl

pub filter_parts :
    (parts : List PathText) → All IsPart parts → filter (λ part. not (is_empty part)) parts ≡ parts
unfolding IsPart
filter_parts [] h = refl
filter_parts (part ∷ parts) h = rw (h.0.0, filter_parts parts h.1) refl

pub parts_of-join :
    (parts : List PathText) → All IsPart parts → parts_of (slash ∷ join parts) ≡ parts
unfolding parts_of replace unix split join
parts_of-join [] h = refl
parts_of-join (part ∷ parts) h =
    rw (replace-join (part ∷ parts) h, split-join part parts h) (filter_parts (part ∷ parts) h)

push-IsPlain :
    (c : ℕ) (parts : List PathText)
    → IsPlain c
    → All (All IsPlain) parts
    → All (All IsPlain) (push c parts)
unfolding push
push-IsPlain c [] p h = ((p, tt), tt)
push-IsPlain c (part ∷ parts) p h = ((p, h.0), h.1)

-- The parts that `parts_of` finds are parts.
pub split-IsPlain :
    (s : PathText) → All (λ (c : ℕ). eqb c 92 ≡ false) s → All (All IsPlain) (split s)
unfolding split IsPlain
split-IsPlain [] h = (tt, tt)
split-IsPlain (c ∷ s) h = go (split-IsPlain s h.1) (eqb c slash) refl
  where
    go :
        All (All IsPlain) (split s)
        → (b : Bool) → eqb c slash ≡ b
        → All (All IsPlain) (if b then [] ∷ split s else push c (split s))
    go rest true e = (tt, rest)
    go rest false e = push-IsPlain c (split s) (e, h.0) rest

pub replace-unix : (s : PathText) → All (λ (c : ℕ). eqb c 92 ≡ false) (replace s)
unfolding replace unix
replace-unix [] = tt
replace-unix (c ∷ s) = (ground arith, replace-unix s)

filter-IsPart :
    (parts : List PathText)
    → All (All IsPlain) parts
    → All IsPart (filter (λ part. not (is_empty part)) parts)
unfolding IsPart
filter-IsPart [] h = tt
filter-IsPart ([] ∷ parts) h = filter-IsPart parts h.1
filter-IsPart ((c ∷ part) ∷ parts) h = ((refl, h.0), filter-IsPart parts h.1)

pub parts_of-IsPart : (path : PathText) → All IsPart (parts_of path)
unfolding parts_of
parts_of-IsPart path =
    filter-IsPart (split (replace path)) (split-IsPlain (replace path) (replace-unix path))

-- Ends in no slash.
abbrev pub LastPlain : PathText → Type 0
LastPlain [] = Unit
LastPlain (c ∷ []) = eqb c slash ≡ false
LastPlain (c ∷ d ∷ s) = LastPlain (d ∷ s)

drop_last_slash-LastPlain : (c : ℕ) (s : PathText) → LastPlain s → drop_last_slash (c ∷ s) ≡ c ∷ s
unfolding drop_last_slash
drop_last_slash-LastPlain c [] h = refl
drop_last_slash-LastPlain c (d ∷ []) h = rw h refl
drop_last_slash-LastPlain c (d ∷ e ∷ s) h = ap (◌∷◌ c) (drop_last_slash-LastPlain d (e ∷ s) h)

pub append-LastPlain : (s t : PathText) → is_empty t ≡ false → LastPlain t → LastPlain (s ++ t)
append-LastPlain [] t n h = h
append-LastPlain (c ∷ []) [] n h = absurd (ground (arith, n))
append-LastPlain (c ∷ []) (d ∷ t) n h = h
append-LastPlain (c ∷ d ∷ s) t n h = append-LastPlain (d ∷ s) t n h

part-LastPlain : (part : PathText) → All IsPlain part → LastPlain part
unfolding IsPlain
part-LastPlain [] h = tt
part-LastPlain (c ∷ []) h = h.0.0
part-LastPlain (c ∷ d ∷ s) h = part-LastPlain (d ∷ s) h.1

append-empty : (s t : PathText) → is_empty s ≡ false → is_empty (s ++ t) ≡ false
append-empty [] t h = absurd (ground (arith, h))
append-empty (c ∷ s) t h = refl

pub join-empty :
    (part : PathText) (parts : List PathText)
    → All IsPart (part ∷ parts)
    → is_empty (join (part ∷ parts)) ≡ false
unfolding join IsPart
join-empty part [] h = h.0.0
join-empty part (next ∷ parts) h = append-empty part (slash ∷ join (next ∷ parts)) h.0.0

pub join-LastPlain : (parts : List PathText) → All IsPart parts → LastPlain (join parts)
unfolding join IsPart
join-LastPlain [] h = tt
join-LastPlain (part ∷ []) h = part-LastPlain part h.0.1
join-LastPlain (part ∷ next ∷ parts) h = append-LastPlain part (slash ∷ join (next ∷ parts)) refl (
    append-LastPlain (slash ∷ []) (join (next ∷ parts)) (join-empty next parts h.1)
      (join-LastPlain (next ∷ parts) h.1))

pub normalize_path-parts : (path : PathText) → normalize_path path ≡ slash ∷ join (parts_of path)
unfolding normalize_path
normalize_path-parts path =
    drop_last_slash-LastPlain slash (join (parts_of path))
      (join-LastPlain (parts_of path) (parts_of-IsPart path))

pub strip_slashes-LastPlain : (s : PathText) → LastPlain s → strip_slashes s ≡ s
unfolding strip_slashes
strip_slashes-LastPlain [] h = refl
strip_slashes-LastPlain (c ∷ []) h = rw h refl
strip_slashes-LastPlain (c ∷ d ∷ s) h = rw (strip_slashes-LastPlain (d ∷ s) h) (ground arith)

-- A path and its normal form have the same parts, and normalizing again changes nothing.
pub normalize_path_idem :
    (path : PathText)
    → (parts_of (normalize_path path) ≡ parts_of path)
      × (normalize_path (normalize_path path) ≡ normalize_path path)
normalize_path_idem path =
    let same : parts_of (normalize_path path) ≡ parts_of path =
      ap parts_of (normalize_path-parts path)
      ∙ parts_of-join (parts_of path) (parts_of-IsPart path) in
    (
      same,
      normalize_path-parts (normalize_path path)
          ∙ (ap (λ (ps : List PathText). slash ∷ join ps) same ∙ sym (normalize_path-parts path)),
    )
