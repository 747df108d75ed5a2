-- ===== src/Storage/Paths.antt =====
-- Paths: services/backend/storage/fs_utils.py and the path part of fs_node.py. A path is the list of
-- its bytes.
use neuralese.Prelude.{
  is_empty, ℕ, Bool, true, false, ◌&&◌, ◌||◌, not, List, [], ◌∷◌, ◌++◌, any, filter, eqb, bytes_eq,
  ◌==◌, if◌then◌else◌, Result, ok, ◌>>◌, require,
}

abbrev pub PathText : Type 0
PathText = List ℕ

abbrev pub slash : ℕ
slash = 47

-- `c` with `\` made `/`
unfoldable pub unix : ℕ → ℕ
unix c = if eqb c 92 then slash else c

-- `path.replace("\\", "/")`
unfoldable pub replace : PathText → PathText
replace [] = []
replace (c ∷ s) = unix c ∷ replace s

-- A character in front of the first part.
unfoldable pub push : ℕ → List PathText → List PathText
push c [] = (c ∷ []) ∷ []
push c (part ∷ parts) = (c ∷ part) ∷ parts

-- `path.split("/")`
unfoldable pub split : PathText → List PathText
split [] = [] ∷ []
split (c ∷ s) = let rest = split s in if eqb c slash then [] ∷ rest else push c rest

-- `"/".join(parts)`
unfoldable pub join : List PathText → PathText
join [] = []
join (part ∷ []) = part
join (part ∷ next ∷ parts) = part ++ slash ∷ join (next ∷ parts)

-- `[part for part in path.replace("\\", "/").split("/") if part]`
unfoldable pub parts_of : PathText → List PathText
parts_of path = filter (λ part. not (is_empty part)) (split (replace path))

-- `path[:-1]`, if it ends in a slash and is not the slash alone
unfoldable pub drop_last_slash : PathText → PathText
drop_last_slash [] = []
drop_last_slash (c ∷ []) = c ∷ []
drop_last_slash (c ∷ d ∷ []) = if eqb d slash then c ∷ [] else c ∷ d ∷ []
drop_last_slash (c ∷ d ∷ e ∷ s) = c ∷ drop_last_slash (d ∷ e ∷ s)

unfoldable pub normalize_path : PathText → PathText
normalize_path path = drop_last_slash (slash ∷ join (parts_of path))

-- `path.rstrip("/")`
unfoldable pub strip_slashes : PathText → PathText
strip_slashes [] = []
strip_slashes (c ∷ s) =
    let rest = strip_slashes s in if eqb c slash && is_empty rest then [] else c ∷ rest

unfoldable pub normalize_prefix : PathText → PathText
normalize_prefix path =
    let normal = normalize_path path in
    if normal == slash ∷ [] then slash ∷ [] else strip_slashes normal ++ slash ∷ []

-- `text.startswith(prefix)`
unfoldable pub starts_with : PathText → PathText → Bool
starts_with [] text = true
starts_with (c ∷ prefix) [] = false
starts_with (c ∷ prefix) (d ∷ text) = eqb c d && starts_with prefix text

pub data PathError : Type 0 where
  absolute_path parent_traversal escapes_base : PathError

abbrev pub dot : PathText
dot = 46 ∷ []

abbrev pub dot_dot : PathText
dot_dot = 46 ∷ 46 ∷ []

unfoldable pub is_absolute : PathText → Bool
is_absolute [] = false
is_absolute (c ∷ s) = eqb c slash

-- The parts of a relative path: `part and part != "."`
unfoldable pub relative_parts : PathText → List PathText
relative_parts rel = filter (λ part. not (is_empty part) && not (part == dot)) (split (replace rel))

-- `Node._resolve_rel`, on the path of the node
unfoldable pub resolve_rel : PathText → PathText → Result PathError PathText
resolve_rel path rel =
    let parts = relative_parts rel in
    let full = normalize_path (strip_slashes path ++ slash ∷ join parts) in
    let base = strip_slashes path ++ slash ∷ [] in
    if is_empty rel || rel == dot
    then ok path
    else (require (not (is_absolute rel)) absolute_path
        >> (require (not (any (λ part. part == dot_dot) parts)) parent_traversal
            >> (require (starts_with base full) escapes_base >> ok full)))
