-- ===== src/Summary/Reach.antt =====
-- `_model_outputs`, `_reachable_distances` and `_first_common_join` of
-- services/backend/axon/graph_summary.py, on nodes and edges that are read already. The queue of the search
-- is emptied on fuel, which `search_fuel` gives.
use neuralese.Prelude.{
  ℕ, zero, suc, ◌+◌, max, Bool, true, not, ◌&&◌, ◌||◌, Option, none, some, List, [], ◌∷◌, ◌++◌,
  String, string_eq, bytes_eq, ◌==◌, if◌then◌else◌, filter, elem, length, Dict, lookup, insert,
}
use mathlib.Core.Option
use neuralese.Topo.Compare.{string_ord, nat_ord, pair_ord, is_le}
use neuralese.Topo.Plan.{keys}

abbrev pub Text : Type 0
Text = List ℕ

-- A packed edge without its start, under which it stands.
pub record Edge : Type 0 where
  pub to : String
  pub from_port : ℕ
  pub to_port : ℕ

-- The types of the nodes and the edges that leave them.
pub record Scene : Type 0 where
  pub types : Dict String Text
  pub outgoing : Dict String (List Edge)

abbrev pub activation : Text
activation = b'a' ∷ b'c' ∷ b't' ∷ b'i' ∷ b'v' ∷ b'a' ∷ b't' ∷ b'i' ∷ b'o' ∷ b'n' ∷ []

unfoldable pub type_of : Scene → String → Text
type_of scene tag = Option.get_or (lookup tag scene.types) []

unfoldable pub is_node : Scene → String → Bool
is_node scene tag = elem tag (keys scene.types)

unfoldable pub model_outputs : Scene → String → List Edge
model_outputs scene current =
    filter (λ e. not (type_of scene e.to == activation))
      (Option.get_or (lookup current scene.outgoing) [])

abbrev pub tags_of : List Edge → List String
tags_of [] = []
tags_of (e ∷ edges) = e.to ∷ tags_of edges

abbrev pub Queue : Type 0
Queue = List (String × ℕ)

unfoldable pub push_all : List Edge → ℕ → Queue
push_all [] distance = []
push_all (e ∷ edges) distance = (e.to, distance) ∷ push_all edges distance

-- The `while queue` loop, `none` out of fuel.
unfoldable pub search_loop : Scene → ℕ → Queue → Dict String ℕ → Option (Dict String ℕ)
search_loop scene fuel [] distances = some distances
search_loop scene zero (first ∷ queue) distances = none
search_loop scene (suc fuel) ((current, distance) ∷ queue) distances =
    let skipped = search_loop scene fuel queue distances in
    let expanded =
      search_loop scene fuel (queue ++ push_all (model_outputs scene current) (distance + 1))
        (insert current distance distances) in
    if elem current (keys distances) || not (is_node scene current) then skipped else expanded

-- One step for the start and for each edge.
unfoldable pub edge_count : Scene → List String → ℕ
edge_count scene [] = 0
edge_count scene (tag ∷ tags) = length (model_outputs scene tag) + edge_count scene tags

unfoldable pub search_fuel : Scene → ℕ
search_fuel scene = suc (edge_count scene (keys scene.types))

unfoldable pub reachable_distances : Scene → String → Option (Dict String ℕ)
reachable_distances scene start = search_loop scene (search_fuel scene) ((start, 0) ∷ []) []

abbrev pub cons_some : {A : Type 0} → Option A → Option (List A) → Option (List A)
cons_some (some a) (some xs) = some (a ∷ xs)
cons_some _ _ = none

unfoldable pub all_reachable : Scene → List String → Option (List (Dict String ℕ))
all_reachable scene [] = some []
all_reachable scene (start ∷ starts) =
    cons_some (reachable_distances scene start) (all_reachable scene starts)

-- The tags that all searches reach.
unfoldable pub in_all : List (Dict String ℕ) → String → Bool
in_all [] tag = true
in_all (reached ∷ others) tag = elem tag (keys reached) && in_all others tag

unfoldable pub common_tags : List (Dict String ℕ) → List String
common_tags [] = []
common_tags (reached ∷ others) = filter (in_all others) (keys reached)

unfoldable pub distances_of : String → List (Dict String ℕ) → List ℕ
distances_of tag [] = []
distances_of tag (reached ∷ others) = Option.get_or (lookup tag reached) 0 ∷ distances_of tag others

unfoldable pub sum_of : List ℕ → ℕ
sum_of [] = 0
sum_of (n ∷ ns) = n + sum_of ns

unfoldable pub max_of : List ℕ → ℕ
max_of [] = 0
max_of (n ∷ ns) = max n (max_of ns)

abbrev pub Score : Type 0
Score = ℕ × (ℕ × String)

unfoldable pub score : List (Dict String ℕ) → String → Score
score reached tag = (sum_of (distances_of tag reached), (max_of (distances_of tag reached), tag))

-- `min(common, key=score)`
unfoldable pub best_of : List (Dict String ℕ) → String → List String → String
best_of reached best [] = best
best_of reached best (tag ∷ tags) =
    best_of reached
      (if is_le (pair_ord.cmp (score reached best) (score reached tag)) then best else tag) tags

unfoldable pub best_join : List (Dict String ℕ) → Option String
best_join reached = pick (common_tags reached)
  where
    pick : List String → Option String
    pick [] = none
    pick (tag ∷ tags) = some (best_of reached tag tags)

abbrev pub joined : Option (List (Dict String ℕ)) → Option (Option String)
joined none = none
joined (some reached) = some (best_join reached)

-- `none` out of fuel
unfoldable pub first_common_join : Scene → List String → Option (Option String)
first_common_join scene [] = some none
first_common_join scene (start ∷ []) = some none
first_common_join scene (start ∷ other ∷ starts) =
    joined (all_reachable scene (start ∷ other ∷ starts))
