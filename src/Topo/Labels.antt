-- ===== src/Topo/Labels.antt =====
-- `_wl_refine_labels` and `_node_sort_key` of services/api/nns/topofuse/plan.py. `_stable_hash`, SHA-1 of
-- the JSON text of an object, is a parameter for each kind of object it is called on.
use neuralese.Prelude.{ℕ, zero, suc, List, [], ◌∷◌, map, String, string_eq, Dict, lookup}
use mathlib.Core.Option
use neuralese.Topo.Compare.{nat_ord, string_ord, pair_ord, list_ord, sorted}
use neuralese.Topo.Graph.{Port, list_at}

abbrev pub Label : Type 0
Label = List ℕ

-- The output port, the input port and the label of the node at the other end.
abbrev pub Signature : Type 0
Signature = List (String × (List ℕ × Label))

-- `labels.get(nid, "")`
unfoldable pub label_of : Dict String Label → String → Label
label_of labels nid = Option.get_or (lookup nid labels) []

unfoldable pub port_label : Dict String Label → Port → String × (List ℕ × Label)
port_label labels (other, out_port, tgt_port) = (out_port, (tgt_port, label_of labels other))

-- `in_sig` and `out_sig`, sorted
unfoldable pub signature_of : Dict String Label → List Port → Signature
signature_of labels ports = sorted (map (port_label labels) ports)

-- `{nid: str(nt.get(nid, "")) for nid in nids}`
unfoldable pub initial_labels : Dict String (List ℕ) → List String → Dict String Label
initial_labels nt [] = []
initial_labels nt (nid ∷ nids) = (nid, label_of nt nid) ∷ initial_labels nt nids

module _ (hash_label : Label → Signature → Signature → Label)
    (in_desc out_desc : Dict String (List Port)) where
  -- One round: the label of a node is the hash of its own and of its neighbours' labels.
  unfoldable pub refine_once : List String → Dict String Label → Dict String Label
  refine_once [] labels = []
  refine_once (nid ∷ nids) labels =
      (
        nid,
        hash_label (label_of labels nid) (signature_of labels (list_at nid in_desc))
            (signature_of labels (list_at nid out_desc)),
      )
      ∷ refine_once nids labels

  unfoldable pub refine : ℕ → List String → Dict String Label → Dict String Label
  refine zero nids labels = labels
  refine (suc iters) nids labels = refine iters nids (refine_once nids labels)

  unfoldable pub wl_refine_labels : List String → Dict String (List ℕ) → ℕ → Dict String Label
  wl_refine_labels nids nt iters = refine iters nids (initial_labels nt nids)

abbrev pub SortKey : Type 0
SortKey = Label × (List ℕ × (ℕ × (ℕ × (Signature × Signature))))

unfoldable pub node_sort_key :
    Dict String (List ℕ)
    → Dict String Label
    → Dict String (List Port)
    → Dict String (List Port)
    → ℕ
    → ℕ
    → String
    → SortKey
node_sort_key nt labels in_desc out_desc indeg0 outdeg0 nid = (
  label_of labels nid,
  (
    label_of nt nid,
    (
      indeg0,
      (
        outdeg0,
        (signature_of labels (list_at nid in_desc), signature_of labels (list_at nid out_desc)),
      ),
    ),
  ),
)
