-- ===== src/Sections/Partition.antt =====
-- services/api/nns/sections/partition.py: the chains of a graph's nodes with parameters. Ids of nodes are
-- texts of the library, other texts are lists of ASCII characters. `repr` is `str` of a value that is no text,
-- `plan_hash` the hash of `_plan_id_for_chain`, and the loop along a chain runs on fuel.
use neuralese.Prelude.{
  ℕ, ◌+◌, ◌&&◌, ◌||◌, Option, none, some, List, [], ◌∷◌, ◌++◌, map, String, string_eq, bytes_eq,
  ◌==◌, if◌then◌else◌, leb, Dict, lookup, insert,
}
use mathlib.Core.Option
use neuralese.Python.Values.{Value, Fields, object, end, field, get?, truthy}
use neuralese.Topo.Compare.{string_ord, nat_ord, list_ord, pair_ord}
use neuralese.Topo.Graph.{fields_or_empty, pages_of, str, node_type, append_at}

abbrev pub Text : Type 0
Text = List ℕ

pub record SectionPlan : Type 0 where
  pub rough_layers : List Text
  pub param_nids : List String
  pub plan_id : Text

abbrev pub dense : Text
dense = b'd' ∷ b'e' ∷ b'n' ∷ b's' ∷ b'e' ∷ []

abbrev linear : Text
linear = b'l' ∷ b'i' ∷ b'n' ∷ b'e' ∷ b'a' ∷ b'r' ∷ []

abbrev pub conv2d : Text
conv2d = b'c' ∷ b'o' ∷ b'n' ∷ b'v' ∷ b'2' ∷ b'd' ∷ []

abbrev convolution2d : Text
convolution2d =
    b'c' ∷ b'o' ∷ b'n' ∷ b'v' ∷ b'o' ∷ b'l' ∷ b'u' ∷ b't' ∷ b'i' ∷ b'o' ∷ b'n' ∷ b'2' ∷ b'd' ∷ []

abbrev neuron_layer : Text
neuron_layer = b'N' ∷ b'e' ∷ b'u' ∷ b'r' ∷ b'o' ∷ b'n' ∷ b'L' ∷ b'a' ∷ b'y' ∷ b'e' ∷ b'r' ∷ []

unfoldable pub lower : ℕ → ℕ
lower c = if leb 65 c && leb c 90 then c + 32 else c

-- `blob.get("config") or blob.get("props", {}).get("config") or {}`
unfoldable pub config_of : Fields → Fields
config_of blob = pick (get? blob "config")
  where
    pick : Option Value → Fields
    pick none = fields_or_empty (get? (fields_or_empty (get? blob "props")) "config")
    pick (some v) =
        if truthy v
        then fields_or_empty (some v)
        else fields_or_empty (get? (fields_or_empty (get? blob "props")) "config")

-- nid -> blob, nid -> type, and the edges
pub record Nodes : Type 0 where
  pub blob_by_nid : Dict String Fields
  pub type_by_nid : Dict String Text
  pub edges : List (String × String)

unfoldable pub edges_to : String → Fields → List (String × String)
edges_to nid end = []
edges_to nid (field target ports rest) = (nid, target) ∷ edges_to nid rest

unfoldable pub edges_from : String → Fields → List (String × String)
edges_from nid end = []
edges_from nid (field port fanouts rest) =
    edges_to nid (fields_or_empty (some fanouts)) ++ edges_from nid rest

-- `_adjacency`
unfoldable pub out_adj_of :
    List (String × String) → Dict String (List String) → Dict String (List String)
out_adj_of [] adj = adj
out_adj_of ((u, v) ∷ edges) adj = out_adj_of edges (append_at u v adj)

unfoldable pub in_adj_of :
    List (String × String) → Dict String (List String) → Dict String (List String)
in_adj_of [] adj = adj
in_adj_of ((u, v) ∷ edges) adj = in_adj_of edges (append_at v u adj)

module _ (repr : Value → List ℕ) where
  -- The kind of a layer with a type that `_norm_layer_kind` knows.
  unfoldable pub kind_named : Text → Option Text
  kind_named name =
      if name == dense || name == linear
      then some dense
      else if name == conv2d || name == convolution2d
      then some conv2d
      else none

  unfoldable pub layer_type : Fields → Text
  layer_type config = of (get? config "type")
    where
      of : Option Value → Text
      of none = dense
      of (some v) = map lower (str repr v)

  unfoldable pub norm_layer_kind : Text → Fields → Option Text
  norm_layer_kind kind blob =
      if kind == neuron_layer then kind_named (layer_type (config_of blob)) else none

  unfoldable pub add_blob : String → Fields → Nodes → Nodes
  add_blob nid blob nodes = record {
    blob_by_nid = insert nid blob nodes.blob_by_nid;
    type_by_nid = insert nid (node_type repr blob) nodes.type_by_nid;
    edges = nodes.edges ++ edges_from nid (fields_or_empty (get? blob "emit"));
  }

  unfoldable pub add_page : Fields → Nodes → Nodes
  add_page end nodes = nodes
  add_page (field nid (object blob) rest) nodes = add_page rest (add_blob nid blob nodes)
  add_page (field nid other rest) nodes = add_page rest nodes

  unfoldable pub add_pages : Fields → Nodes → Nodes
  add_pages end nodes = nodes
  add_pages (field key (object page) rest) nodes = add_pages rest (add_page page nodes)
  add_pages (field key other rest) nodes = add_pages rest nodes

  unfoldable pub graph_nodes_edges : Fields → Nodes
  graph_nodes_edges graph =
      add_pages (pages_of graph) (record { blob_by_nid = []; type_by_nid = []; edges = [] })

  abbrev cons_kind : String → Option Text → Dict String Text → Dict String Text
  cons_kind nid none kinds = kinds
  cons_kind nid (some kind) kinds = (nid, kind) ∷ kinds

  -- `param_kind`, in the order of the blobs
  unfoldable pub param_kinds : Nodes → Dict String Fields → Dict String Text
  param_kinds nodes [] = []
  param_kinds nodes ((nid, blob) ∷ blobs) =
      cons_kind nid (norm_layer_kind (Option.get_or (lookup nid nodes.type_by_nid) []) blob)
        (param_kinds nodes blobs)
