-- ===== src/Tests/Topo.antt =====
-- Plans of services/api/nns/topofuse/plan.py.
use neuralese.Prelude.{
  ℕ, true, ◌≡◌, ◌≢◌, refl, ◌⊎◌, List, [], ◌∷◌, ◌++◌, String, string_eq, length, ok,
}
use neuralese.Python.Values.{Fields, object, array, text, nil, cons, end, field, get?, truthy}
use neuralese.Topo.Compare.{nat_ord, string_ord, pair_ord, list_ord}
use neuralese.Topo.Graph.{
  Edge, build_in_out, build_in_out_from, add_edge, append_at, list_at, degree_at,
  extract_nodes_edges, extract_pages, extract_page, add_node, edges_of_emit, edges_of_fanouts,
  edges_to_target, edges_to_ports, node_type, str, pages_of, fields_or_empty,
}
use neuralese.Topo.Labels.{
  Label, Signature, label_of, port_label, signature_of, initial_labels, refine_once, refine,
  wl_refine_labels, node_sort_key,
}
use neuralese.Topo.Sort.{
  ordered, ambiguous, out_of_fuel, cons_order, default_degrees, remove, relax, ready, min_key,
  mins_of, key_at, sort_loop, canonical_toposort,
}
use neuralese.Topo.Order.{IsOrderOf, canonical_toposort-IsOrderOf}
use neuralese.Topo.Ends.{canonical_toposort-ends}
use neuralese.Topo.Fuel.{canonical_toposort_total}
use neuralese.Topo.Plan.{
  Plan, keys, number_from, number_outcome, put_edge, put_edges, range_from, sources_at, ports_at,
  pass_through_of, labels_of, sort_key_of, order_of, exec_of, empty_plan, numbered_plan, plan_of,
  compile_plan,
}
use neuralese.Topo.Forward.{IsPlanOf, compile_plan-IsPlanOf}

-- "out" is fed by "mid", which is fed by "in".
abbrev edges : List Edge
edges =
    record { src = "mid"; out_port = "o"; tgt = "out"; tgt_port = [] }
    ∷ record { src = "in"; out_port = "o"; tgt = "mid"; tgt_port = [] }
    ∷ []

abbrev nids : List String
nids = "out" ∷ "mid" ∷ "in" ∷ []

abbrev order : List String
order = "in" ∷ "mid" ∷ "out" ∷ []

abbrev by_name : String → ℕ → String
by_name nid degree = nid

sorts :
    canonical_toposort by_name (build_in_out edges).out_adj nids (build_in_out edges).indeg
    ≡ ordered order
unfolding build_in_out build_in_out_from add_edge append_at list_at degree_at cons_order
    default_degrees remove relax ready min_key mins_of key_at sort_loop canonical_toposort
sorts = refl

canonical_toposort-IsOrderOf_example : IsOrderOf edges nids order
canonical_toposort-IsOrderOf_example =
    canonical_toposort-IsOrderOf by_name nids edges order (refl, (refl, tt)) sorts

canonical_toposort-ends_example :
    let outcome =
      canonical_toposort by_name (build_in_out edges).out_adj nids (build_in_out edges).indeg in
    ((found : List String) × (outcome ≡ ordered found)) ⊎ (outcome ≡ ambiguous)
canonical_toposort-ends_example =
    canonical_toposort-ends by_name nids edges order (refl, (refl, tt))
      canonical_toposort-IsOrderOf_example

-- An input that feeds port 0 of a layer.
abbrev page : Fields
page = field "b" (object (field "type" (text (b'L' ∷ [])) end)) (
    field "a"
      (object (
        field "type" (text (b'I' ∷ [])) (
          field "emit"
            (object (field "o" (object (field "b" (array (cons (text (b'0' ∷ [])) nil)) end)) end))
            end)))
      end)

abbrev graph : Fields
graph = field "pages" (object (field "p" (object page) end)) end

abbrev hash_label : Label → Signature → Signature → Label
hash_label own ins outs = own ++ length ins ∷ length outs ∷ []

abbrev plan : Plan
plan = record {
  exec_order = 0 ∷ 1 ∷ [];
  in_edges = (1, (0, "o") ∷ []) ∷ [];
  in_by_port = (1, (b'0' ∷ [], 0) ∷ []) ∷ [];
  pass_through = (0, true) ∷ (1, true) ∷ [];
  output_exec = 1;
}

compiles : compile_plan (λ v. []) hash_label (λ kind. true) graph "b" ≡ ok plan
unfolding build_in_out build_in_out_from add_edge append_at list_at degree_at cons_order
    default_degrees remove relax ready min_key mins_of key_at sort_loop canonical_toposort
    extract_nodes_edges extract_pages extract_page add_node edges_of_emit edges_of_fanouts
    edges_to_target edges_to_ports node_type str pages_of fields_or_empty get? truthy label_of
    port_label signature_of initial_labels refine_once refine wl_refine_labels node_sort_key keys
    number_from number_outcome put_edge put_edges range_from sources_at ports_at pass_through_of
    labels_of sort_key_of order_of exec_of empty_plan numbered_plan plan_of compile_plan
compiles = refl

compile_plan-IsPlanOf_example :
    (found : List String) × IsPlanOf (extract_nodes_edges (λ v. []) graph) "b" found plan
compile_plan-IsPlanOf_example =
    compile_plan-IsPlanOf (λ v. []) hash_label (λ kind. true) graph "b" plan compiles

-- Two nodes that feed each other.
abbrev loop_edges : List Edge
loop_edges =
    record { src = "mid"; out_port = "o"; tgt = "in"; tgt_port = [] }
    ∷ record { src = "in"; out_port = "o"; tgt = "mid"; tgt_port = [] }
    ∷ []

canonical_toposort_total_example :
    canonical_toposort by_name
      (build_in_out loop_edges).out_adj
      nids
      (build_in_out loop_edges).indeg
    ≢ out_of_fuel
canonical_toposort_total_example =
    canonical_toposort_total loop_edges by_name nids (build_in_out loop_edges).indeg
