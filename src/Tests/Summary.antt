-- ===== src/Tests/Summary.antt =====
-- Summaries of services/backend/axon/graph_summary.py.
use neuralese.Prelude.{
  ℕ, ◌≡◌, ◌↔◌, refl, true, some, List, [], ◌∷◌, String, string_eq, bytes_eq, bytes_beq, elem, Dict,
}
use neuralese.Topo.Plan.{keys}
use neuralese.Summary.Reach.{
  Text, Edge, Scene, type_of, is_node, model_outputs, push_all, search_loop, edge_count,
  search_fuel, reachable_distances, all_reachable, in_all, common_tags, distances_of, sum_of,
  max_of, score, best_of, best_join, first_common_join,
}
use neuralese.Summary.Walks.{Walk, reachable_distances-Walk}
use neuralese.Summary.Complete.{reachable_distances_iff}
use neuralese.Summary.Render.{render_flow}
use neuralese.Summary.Ends.{render_flow-Ends}

abbrev edge : String → Edge
edge tag = record { to = tag; from_port = 0; to_port = 0 }

abbrev dense : Text
dense = b'd' ∷ []

-- "a" splits into "b" and "c", which join at "d", and "d" leads back to "a".
abbrev scene : Scene
scene = record {
  types = ("a", dense) ∷ ("b", dense) ∷ ("c", dense) ∷ ("d", dense) ∷ [];
  outgoing =
      ("a", edge "b" ∷ edge "c" ∷ [])
      ∷ ("b", edge "d" ∷ [])
      ∷ ("c", edge "d" ∷ [])
      ∷ ("d", edge "a" ∷ [])
      ∷ [];
}

abbrev tag_code : String → Text
tag_code tag = b'n' ∷ []

abbrev found : Dict String ℕ
found = ("a", 0) ∷ ("b", 1) ∷ ("c", 1) ∷ ("d", 2) ∷ []

searches : reachable_distances scene "a" ≡ some found
unfolding keys type_of is_node model_outputs push_all search_loop edge_count search_fuel
    reachable_distances bytes_beq
searches = refl

joins : first_common_join scene ("b" ∷ "c" ∷ []) ≡ some (some "d")
unfolding keys type_of is_node model_outputs push_all search_loop edge_count search_fuel
    reachable_distances bytes_beq all_reachable in_all common_tags distances_of sum_of max_of score
    best_of best_join first_common_join
joins = refl

reachable_distances-Walk_example : Walk scene "a" "d" 2
reachable_distances-Walk_example = reachable_distances-Walk scene "a" found "d" 2 searches refl

reachable_distances_iff_example :
    (elem {A = String} "d" (keys found) ≡ true)
    ↔ ((is_node scene "d" ≡ true) × ((d : ℕ) × Walk scene "a" "d" d))
reachable_distances_iff_example = reachable_distances_iff scene "a" found "d" searches

render_flow-Ends_example :
    (rendered : List ℕ × List String) × (render_flow scene tag_code [] "a" [] ≡ some rendered)
render_flow-Ends_example = render_flow-Ends scene tag_code [] "a" []
