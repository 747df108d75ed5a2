-- ===== src/Topo/Graph.antt =====
-- `_extract_nodes_edges` and `_build_in_out` of services/api/nns/topofuse/plan.py. Ids of nodes and names
-- of ports that are keys of a dictionary are texts of the library; a type and a target port, which are
-- values, are lists of bytes. What `str` makes of a value that is no text is a parameter.
use neuralese.Prelude.{
  ℕ, ◌+◌, Option, none, some, List, [], ◌∷◌, ◌++◌, String, string_eq, if◌then◌else◌, Dict, lookup,
  insert,
}
use mathlib.Core.Option
use neuralese.Python.Values.{
  Value, Values, Fields, object, array, text, nil, cons, end, field, get?, truthy,
}

pub record Edge : Type 0 where
  pub src : String
  pub out_port : String
  pub tgt : String
  pub tgt_port : List ℕ

pub record Extracted : Type 0 where
  pub node_type_by_nid : Dict String (List ℕ)
  pub edges : List Edge

-- `value or {}`, where a dictionary is expected. A value on which the code then raises has no
-- entries here.
unfoldable pub fields_or_empty : Option Value → Fields
fields_or_empty (some (object fields)) = fields
fields_or_empty _ = end

-- `(graph.get("graph") or graph).get("pages") or {}`
unfoldable pub pages_of : Fields → Fields
pages_of graph = pick (get? graph "graph")
  where
    pick : Option Value → Fields
    pick none = fields_or_empty (get? graph "pages")
    pick (some v) =
        if truthy v
        then fields_or_empty (get? (fields_or_empty (some v)) "pages")
        else fields_or_empty (get? graph "pages")

module _ (repr : Value → List ℕ) where
  unfoldable pub str : Value → List ℕ
  str (text s) = s
  str value = repr value

  -- `str(blob.get("type") or "")`
  unfoldable pub node_type : Fields → List ℕ
  node_type blob = of (get? blob "type")
    where
      of : Option Value → List ℕ
      of none = []
      of (some v) = if truthy v then str v else []

  unfoldable pub edges_to_ports : String → String → String → Values → List Edge
  edges_to_ports nid out_port tgt nil = []
  edges_to_ports nid out_port tgt (cons port ports) =
      record { src = nid; out_port = out_port; tgt = tgt; tgt_port = str port }
      ∷ edges_to_ports nid out_port tgt ports

  -- The edges to one target: one for each port of a list that is not empty, else one without a port.
  unfoldable pub edges_to_target : String → String → String → Value → List Edge
  edges_to_target nid out_port tgt (array (cons port ports)) =
      edges_to_ports nid out_port tgt (cons port ports)
  edges_to_target nid out_port tgt other =
      record { src = nid; out_port = out_port; tgt = tgt; tgt_port = [] } ∷ []

  unfoldable pub edges_of_fanouts : String → String → Fields → List Edge
  edges_of_fanouts nid out_port end = []
  edges_of_fanouts nid out_port (field tgt ports rest) =
      edges_to_target nid out_port tgt ports ++ edges_of_fanouts nid out_port rest

  unfoldable pub edges_of_emit : String → Fields → List Edge
  edges_of_emit nid end = []
  edges_of_emit nid (field out_port fanouts rest) =
      edges_of_fanouts nid out_port (fields_or_empty (some fanouts)) ++ edges_of_emit nid rest

  unfoldable pub add_node : String → Fields → Extracted → Extracted
  add_node nid blob e = record {
    node_type_by_nid = insert nid (node_type blob) e.node_type_by_nid;
    edges = e.edges ++ edges_of_emit nid (fields_or_empty (get? blob "emit"));
  }

  unfoldable pub extract_page : Fields → Extracted → Extracted
  extract_page end e = e
  extract_page (field nid (object blob) rest) e = extract_page rest (add_node nid blob e)
  extract_page (field nid other rest) e = extract_page rest e

  unfoldable pub extract_pages : Fields → Extracted → Extracted
  extract_pages end e = e
  extract_pages (field key (object page) rest) e = extract_pages rest (extract_page page e)
  extract_pages (field key other rest) e = extract_pages rest e

  unfoldable pub extract_nodes_edges : Fields → Extracted
  extract_nodes_edges graph =
      extract_pages (pages_of graph) (record { node_type_by_nid = []; edges = [] })

-- `d[key]` of a `defaultdict(list)`
unfoldable pub list_at {ℓ} : {A : Type ℓ} → String → Dict String (List A) → List A
list_at key d = Option.get_or (lookup key d) []

-- `d[key].append(a)`
unfoldable pub append_at {ℓ} :
    {A : Type ℓ} → String → A → Dict String (List A) → Dict String (List A)
append_at key a d = insert key (list_at key d ++ a ∷ []) d

-- the other end of an edge, its output port and its input port
abbrev pub Port : Type 0
Port = String × String × List ℕ

pub record InOut : Type 0 where
  pub in_desc : Dict String (List Port)
  pub out_desc : Dict String (List Port)
  pub out_adj : Dict String (List String)
  pub in_adj : Dict String (List String)
  pub indeg : Dict String ℕ

unfoldable pub degree_at : String → Dict String ℕ → ℕ
degree_at key d = Option.get_or (lookup key d) 0

unfoldable pub add_edge : Edge → InOut → InOut
add_edge e d = record {
  in_desc = append_at e.tgt (e.src, e.out_port, e.tgt_port) d.in_desc;
  out_desc = append_at e.src (e.tgt, e.out_port, e.tgt_port) d.out_desc;
  out_adj = append_at e.src e.tgt d.out_adj;
  in_adj = append_at e.tgt e.src d.in_adj;
  indeg = insert e.tgt (degree_at e.tgt d.indeg + 1) d.indeg;
}

unfoldable pub build_in_out_from : InOut → List Edge → InOut
build_in_out_from d [] = d
build_in_out_from d (e ∷ edges) = build_in_out_from (add_edge e d) edges

unfoldable pub build_in_out : List Edge → InOut
build_in_out =
    build_in_out_from
      (record { in_desc = []; out_desc = []; out_adj = []; in_adj = []; indeg = [] })
