-- ===== src/Topo/Extract.antt =====
-- The edges that `_extract_nodes_edges` of services/api/nns/topofuse/plan.py finds come from its nodes.
use neuralese.Prelude.{
  ℕ, ◌≡◌, refl, ◌||◌, some, List, [], ◌∷◌, String, string_eq, ◌==◌, elem, All, All-append, Dict,
  insert, arith, beq_self,
}
use package.text.Mathlib.TextEquality.{eq_iff}
use neuralese.Python.Values.{
  Value, Values, Fields, object, array, text, nil, cons, end, field, null, boolean, int, float,
  bytes, get?,
}
use neuralese.Topo.Graph.{
  Edge, Extracted, fields_or_empty, pages_of, node_type, edges_to_ports, edges_to_target,
  edges_of_fanouts, edges_of_emit, add_node, extract_page, extract_pages, extract_nodes_edges,
}
use neuralese.Topo.Plan.{keys}
use neuralese.Topo.Sound.{IsFrom}

pub elem-keys-insert :
    {A : Type 0} (k j : String) (v : A) (d : Dict String A)
    → elem j (keys (insert k v d)) ≡ (k == j || elem j (keys d))
unfolding keys
elem-keys-insert k j v [] = refl
elem-keys-insert k j v ((i, w) ∷ d) =
    ground (arith, eq_iff i k, eq_iff i j, eq_iff k j, elem-keys-insert k j v d)

abbrev ComesFrom : String → Edge → Type 0
ComesFrom nid e = e.src ≡ nid

edges_to_ports-ComesFrom :
    (repr : Value → List ℕ) (nid out tgt : String) (ports : Values)
    → All (ComesFrom nid) (edges_to_ports repr nid out tgt ports)
unfolding edges_to_ports
edges_to_ports-ComesFrom repr nid out tgt nil = tt
edges_to_ports-ComesFrom repr nid out tgt (cons port ports) =
    (refl, edges_to_ports-ComesFrom repr nid out tgt ports)

edges_to_target-ComesFrom :
    (repr : Value → List ℕ) (nid out tgt : String) (ports : Value)
    → All (ComesFrom nid) (edges_to_target repr nid out tgt ports)
unfolding edges_to_target
edges_to_target-ComesFrom repr nid out tgt (array (cons port ports)) =
    edges_to_ports-ComesFrom repr nid out tgt (cons port ports)
edges_to_target-ComesFrom repr nid out tgt (array nil) = (refl, tt)
edges_to_target-ComesFrom repr nid out tgt null = (refl, tt)
edges_to_target-ComesFrom repr nid out tgt (boolean b) = (refl, tt)
edges_to_target-ComesFrom repr nid out tgt (int z) = (refl, tt)
edges_to_target-ComesFrom repr nid out tgt (float z b) = (refl, tt)
edges_to_target-ComesFrom repr nid out tgt (text s) = (refl, tt)
edges_to_target-ComesFrom repr nid out tgt (bytes s) = (refl, tt)
edges_to_target-ComesFrom repr nid out tgt (object fields) = (refl, tt)

edges_of_fanouts-ComesFrom :
    (repr : Value → List ℕ) (nid out : String) (fanouts : Fields)
    → All (ComesFrom nid) (edges_of_fanouts repr nid out fanouts)
unfolding edges_of_fanouts
edges_of_fanouts-ComesFrom repr nid out end = tt
edges_of_fanouts-ComesFrom repr nid out (field tgt ports rest) =
    All-append (ComesFrom nid) (edges_to_target repr nid out tgt ports) _
      (edges_to_target-ComesFrom repr nid out tgt ports)
      (edges_of_fanouts-ComesFrom repr nid out rest)

edges_of_emit-ComesFrom :
    (repr : Value → List ℕ) (nid : String) (emit : Fields)
    → All (ComesFrom nid) (edges_of_emit repr nid emit)
unfolding edges_of_emit
edges_of_emit-ComesFrom repr nid end = tt
edges_of_emit-ComesFrom repr nid (field out fanouts rest) =
    All-append (ComesFrom nid) (edges_of_fanouts repr nid out (fields_or_empty (some fanouts))) _
      (edges_of_fanouts-ComesFrom repr nid out (fields_or_empty (some fanouts)))
      (edges_of_emit-ComesFrom repr nid rest)

abbrev AllFrom : Extracted → Type 0
AllFrom x = All (IsFrom (keys x.node_type_by_nid)) x.edges

All-insert :
    (nid : String) (kind : List ℕ) (nodes : Dict String (List ℕ)) (edges : List Edge)
    → All (IsFrom (keys nodes)) edges
    → All (IsFrom (keys (insert nid kind nodes))) edges
All-insert nid kind nodes [] h = tt
All-insert nid kind nodes (e ∷ edges) (h, hs) =
    (ground (arith, h, elem-keys-insert nid e.src kind nodes), All-insert nid kind nodes edges hs)

All-own :
    (nid : String) (kind : List ℕ) (nodes : Dict String (List ℕ)) (edges : List Edge)
    → All (ComesFrom nid) edges
    → All (IsFrom (keys (insert nid kind nodes))) edges
All-own nid kind nodes [] h = tt
All-own nid kind nodes (e ∷ edges) (h, hs) = (
  ground (arith, h, beq_self nid, elem-keys-insert nid e.src kind nodes),
  All-own nid kind nodes edges hs,
)

add_node-AllFrom :
    (repr : Value → List ℕ) (nid : String) (blob : Fields) (x : Extracted)
    → AllFrom x
    → AllFrom (add_node repr nid blob x)
unfolding add_node
add_node-AllFrom repr nid blob x h =
    All-append (IsFrom (keys (insert nid (node_type repr blob) x.node_type_by_nid))) x.edges _
      (All-insert nid (node_type repr blob) x.node_type_by_nid x.edges h)
      (All-own nid (node_type repr blob) x.node_type_by_nid _
        (edges_of_emit-ComesFrom repr nid (fields_or_empty (get? blob "emit"))))

extract_page-AllFrom :
    (repr : Value → List ℕ) (page : Fields) (x : Extracted)
    → AllFrom x
    → AllFrom (extract_page repr page x)
unfolding extract_page
extract_page-AllFrom repr end x h = h
extract_page-AllFrom repr (field nid (object blob) rest) x h =
    extract_page-AllFrom repr rest (add_node repr nid blob x) (add_node-AllFrom repr nid blob x h)
extract_page-AllFrom repr (field nid null rest) x h = extract_page-AllFrom repr rest x h
extract_page-AllFrom repr (field nid (boolean b) rest) x h = extract_page-AllFrom repr rest x h
extract_page-AllFrom repr (field nid (int z) rest) x h = extract_page-AllFrom repr rest x h
extract_page-AllFrom repr (field nid (float z b) rest) x h = extract_page-AllFrom repr rest x h
extract_page-AllFrom repr (field nid (text s) rest) x h = extract_page-AllFrom repr rest x h
extract_page-AllFrom repr (field nid (bytes s) rest) x h = extract_page-AllFrom repr rest x h
extract_page-AllFrom repr (field nid (array vs) rest) x h = extract_page-AllFrom repr rest x h

extract_pages-AllFrom :
    (repr : Value → List ℕ) (pages : Fields) (x : Extracted)
    → AllFrom x
    → AllFrom (extract_pages repr pages x)
unfolding extract_pages
extract_pages-AllFrom repr end x h = h
extract_pages-AllFrom repr (field key (object page) rest) x h =
    extract_pages-AllFrom repr rest (extract_page repr page x) (extract_page-AllFrom repr page x h)
extract_pages-AllFrom repr (field key null rest) x h = extract_pages-AllFrom repr rest x h
extract_pages-AllFrom repr (field key (boolean b) rest) x h = extract_pages-AllFrom repr rest x h
extract_pages-AllFrom repr (field key (int z) rest) x h = extract_pages-AllFrom repr rest x h
extract_pages-AllFrom repr (field key (float z b) rest) x h = extract_pages-AllFrom repr rest x h
extract_pages-AllFrom repr (field key (text s) rest) x h = extract_pages-AllFrom repr rest x h
extract_pages-AllFrom repr (field key (bytes s) rest) x h = extract_pages-AllFrom repr rest x h
extract_pages-AllFrom repr (field key (array vs) rest) x h = extract_pages-AllFrom repr rest x h

pub extract_nodes_edges-IsFrom :
    (repr : Value → List ℕ) (graph : Fields)
    → All
        (IsFrom (keys (extract_nodes_edges repr graph).node_type_by_nid))
        (extract_nodes_edges repr graph).edges
unfolding extract_nodes_edges
extract_nodes_edges-IsFrom repr graph =
    extract_pages-AllFrom repr (pages_of graph) (record { node_type_by_nid = []; edges = [] }) tt
