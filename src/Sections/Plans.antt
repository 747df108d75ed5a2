-- ===== src/Sections/Plans.antt =====
-- The plans of a graph, services/api/nns/sections/partition.py.
use neuralese.Prelude.{
  ℕ, ◌≡◌, refl, sym, ap, Bool, true, false, some, Bool-cases, Option-cases, inl, inr, List, [], ◌∷◌,
  map, String, string_eq, ◌==◌, elem, Distinct, Dict, lookup, insert, arith,
}
use mathlib.Core.Option
use mathlib.Core.Path.{subst}
use package.text.Mathlib.TextEquality.{eq_iff}
use neuralese.Python.Values.{
  Value, Fields, object, array, text, end, field, null, boolean, int, float, bytes,
}
use neuralese.Topo.Graph.{pages_of}
use neuralese.Topo.Plan.{keys}
use neuralese.Topo.Extract.{elem-keys-insert}
use neuralese.Sections.Partition.{
  Text, SectionPlan, Nodes, norm_layer_kind, add_blob, add_page, add_pages, graph_nodes_edges,
  param_kinds,
}
use neuralese.Sections.Chains.{names, plan_for, plans_for, partition_graph_into_section_plans}
use neuralese.Sections.Covers.{IsPartition, chains_of-IsPartition}

keys-insert-Distinct :
    {A : Type 0} (k : String) (v : A) (d : Dict String A)
    → Distinct (keys d)
    → Distinct (keys (insert k v d))
unfolding keys
keys-insert-Distinct k v [] h = (refl, tt)
keys-insert-Distinct k v ((j, w) ∷ d) h = elim (Bool-cases (j == k)) [
  | inl same ↦ rw same (subst (λ n. elem n (keys d) ≡ false) ((eq_iff j k).0 same) h.0, h.1)
  | inr other ↦ rw other (
    ground (arith, elem-keys-insert k j v d, h.0, other, eq_iff k j, eq_iff j k),
    keys-insert-Distinct k v d h.1,
  )
]

module _ (repr : Value → List ℕ) where
  abbrev HasKeys : Nodes → Type 0
  HasKeys nodes = Distinct (keys nodes.blob_by_nid)

  add_page-HasKeys :
      (page : Fields) (nodes : Nodes) → HasKeys nodes → HasKeys (add_page repr page nodes)
  unfolding add_page add_blob
  add_page-HasKeys end nodes h = h
  add_page-HasKeys (field nid (object blob) rest) nodes h =
      add_page-HasKeys rest (add_blob repr nid blob nodes)
        (keys-insert-Distinct nid blob nodes.blob_by_nid h)
  add_page-HasKeys (field nid null rest) nodes h = add_page-HasKeys rest nodes h
  add_page-HasKeys (field nid (boolean b) rest) nodes h = add_page-HasKeys rest nodes h
  add_page-HasKeys (field nid (int z) rest) nodes h = add_page-HasKeys rest nodes h
  add_page-HasKeys (field nid (float z b) rest) nodes h = add_page-HasKeys rest nodes h
  add_page-HasKeys (field nid (text s) rest) nodes h = add_page-HasKeys rest nodes h
  add_page-HasKeys (field nid (bytes s) rest) nodes h = add_page-HasKeys rest nodes h
  add_page-HasKeys (field nid (array vs) rest) nodes h = add_page-HasKeys rest nodes h

  add_pages-HasKeys :
      (pages : Fields) (nodes : Nodes) → HasKeys nodes → HasKeys (add_pages repr pages nodes)
  unfolding add_pages
  add_pages-HasKeys end nodes h = h
  add_pages-HasKeys (field key (object page) rest) nodes h =
      add_pages-HasKeys rest (add_page repr page nodes) (add_page-HasKeys page nodes h)
  add_pages-HasKeys (field key null rest) nodes h = add_pages-HasKeys rest nodes h
  add_pages-HasKeys (field key (boolean b) rest) nodes h = add_pages-HasKeys rest nodes h
  add_pages-HasKeys (field key (int z) rest) nodes h = add_pages-HasKeys rest nodes h
  add_pages-HasKeys (field key (float z b) rest) nodes h = add_pages-HasKeys rest nodes h
  add_pages-HasKeys (field key (text s) rest) nodes h = add_pages-HasKeys rest nodes h
  add_pages-HasKeys (field key (bytes s) rest) nodes h = add_pages-HasKeys rest nodes h
  add_pages-HasKeys (field key (array vs) rest) nodes h = add_pages-HasKeys rest nodes h

  elem-names :
      (nodes : Nodes) (blobs : Dict String Fields) (n : String)
      → elem n (names (param_kinds repr nodes blobs)) ≡ true
      → elem n (keys blobs) ≡ true
  unfolding names param_kinds keys
  elem-names nodes [] n e = e
  elem-names nodes ((nid, blob) ∷ blobs) n e =
      elim (Option-cases
        (norm_layer_kind repr (Option.get_or (lookup nid nodes.type_by_nid) []) blob)) [
          | inl skipped ↦ ground (arith, e, skipped, elem-names nodes blobs n)
          | inr (kind, kept) ↦ ground (arith, e, kept, elem-names nodes blobs n)
        ]

  names-Distinct :
      (nodes : Nodes) (blobs : Dict String Fields)
      → Distinct (keys blobs)
      → Distinct (names (param_kinds repr nodes blobs))
  unfolding names param_kinds keys
  names-Distinct nodes [] h = tt
  names-Distinct nodes ((nid, blob) ∷ blobs) h =
      elim (Option-cases
        (norm_layer_kind repr (Option.get_or (lookup nid nodes.type_by_nid) []) blob)) [
          | inl skipped ↦ rw skipped (names-Distinct nodes blobs h.1)
          | inr (kind, kept) ↦ rw kept (
            absent (elem nid (names (param_kinds repr nodes blobs))) refl,
            names-Distinct nodes blobs h.1,
          )
        ]
    where
      absent :
          (b : Bool)
          → elem nid (names (param_kinds repr nodes blobs)) ≡ b
          → elem nid (names (param_kinds repr nodes blobs)) ≡ false
      absent true e = absurd (ground (arith, e, h.0, elem-names nodes blobs nid e))
      absent false e = e

  -- The nodes with parameters of a graph.
  unfoldable pub param_nodes : Fields → List String
  param_nodes graph =
      let nodes = graph_nodes_edges repr graph in names (param_kinds repr nodes nodes.blob_by_nid)

  param_nids-plans :
      (plan_hash : List Text → ℕ → Text) (kinds : Dict String Text) (chains : List (List String))
      → map (λ plan. plan.param_nids) (map (plan_for plan_hash kinds) chains) ≡ chains
  unfolding plan_for
  param_nids-plans plan_hash kinds [] = refl
  param_nids-plans plan_hash kinds (chain ∷ chains) =
      ap (◌∷◌ chain) (param_nids-plans plan_hash kinds chains)

  -- The partition of a graph ends with plans, and these have each node with parameters once.
  pub partition_graph_into_section_plans-IsPartition :
      (plan_hash : List Text → ℕ → Text) (graph : Fields)
      → (plans : List SectionPlan) × (partition_graph_into_section_plans repr plan_hash graph
          ≡ some plans)
        × IsPartition (param_nodes graph) (map (λ plan. plan.param_nids) plans)
  unfolding partition_graph_into_section_plans param_nodes plans_for graph_nodes_edges keys
  partition_graph_into_section_plans-IsPartition plan_hash graph =
      let nodes = graph_nodes_edges repr graph in
      let kinds = param_kinds repr nodes nodes.blob_by_nid in
      let distinct = names-Distinct nodes nodes.blob_by_nid (
        add_pages-HasKeys (pages_of graph)
          (record { blob_by_nid = []; type_by_nid = []; edges = [] }) tt) in
      let (chains, e, h) = chains_of-IsPartition kinds nodes.edges distinct in
      (
        map (plan_for plan_hash kinds) chains,
        rw e refl,
        subst (IsPartition (names kinds)) (sym (param_nids-plans plan_hash kinds chains)) h,
      )
