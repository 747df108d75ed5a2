-- ===== src/Topo/Plan.antt =====
-- `build_nid_to_exec`, `topo_signature` and `compile_plan` of services/api/nns/topofuse/plan.py. The registry
-- of node functions and the building of the Torch modules, which gives the plan its device, are left to
-- parameters: `passes` says whether a type's function is marked `__pass_through__`.
use neuralese.Prelude.{
  is_empty, ℕ, zero, suc, ◌+◌, Bool, Option, none, some, List, [], ◌∷◌, ◌++◌, String, string_eq,
  nat_eq, bytes_eq, if◌then◌else◌, length, Dict, lookup, insert, Result, ok, ◌>>=◌, or_raise,
}
use mathlib.Core.Option
use neuralese.Python.Values.{Value, Fields}
use neuralese.Topo.Compare.{nat_ord, string_ord, pair_ord, list_ord, sorted}
use neuralese.Topo.Graph.{Edge, Extracted, extract_nodes_edges, build_in_out, list_at}
use neuralese.Topo.Labels.{Label, Signature, SortKey, label_of, wl_refine_labels, node_sort_key}
use neuralese.Topo.Sort.{Outcome, ordered, canonical_toposort}

unfoldable pub keys {ℓ} : {A : Type ℓ} → Dict String A → List String
keys [] = []
keys ((k, v) ∷ d) = k ∷ keys d

-- `{nid: i for i, nid in enumerate(order)}`, from `i` on
unfoldable pub number_from : ℕ → List String → Dict String ℕ
number_from i [] = []
number_from i (nid ∷ order) = (nid, i) ∷ number_from (i + 1) order

unfoldable pub number_outcome : Outcome → Option (Dict String ℕ)
number_outcome (ordered order) = some (number_from 0 order)
number_outcome _ = none

-- An edge between the numbers of its ends: the source, the output port, the target, the input port.
abbrev pub ExecEdge : Type 0
ExecEdge = ℕ × (String × (ℕ × List ℕ))

unfoldable pub exec_edge : Dict String ℕ → Edge → Option ExecEdge
exec_edge nid_to_exec e = both (lookup e.src nid_to_exec) (lookup e.tgt nid_to_exec)
  where
    both : Option ℕ → Option ℕ → Option ExecEdge
    both (some ue) (some ve) = some (ue, (e.out_port, (ve, e.tgt_port)))
    both _ _ = none

unfoldable pub cons_if : Option ExecEdge → Option (List ExecEdge) → Option (List ExecEdge)
cons_if (some e) (some edges) = some (e ∷ edges)
cons_if _ _ = none

unfoldable pub exec_edges : Dict String ℕ → List Edge → Option (List ExecEdge)
exec_edges nid_to_exec [] = some []
exec_edges nid_to_exec (e ∷ edges) =
    cons_if (exec_edge nid_to_exec e) (exec_edges nid_to_exec edges)

unfoldable pub types_in_order : Dict String (List ℕ) → Dict String ℕ → List (List ℕ)
types_in_order nt [] = []
types_in_order nt ((nid, i) ∷ rest) = label_of nt nid ∷ types_in_order nt rest

pub data PlanError : Type 0 where
  canonicalization_ambiguous output_not_found missing_endpoint : PlanError

pub record Plan : Type 0 where
  pub exec_order : List ℕ
  pub in_edges : Dict ℕ (List (ℕ × String))
  pub in_by_port : Dict ℕ (Dict (List ℕ) ℕ)
  pub pass_through : Dict ℕ Bool
  pub output_exec : ℕ

unfoldable pub range_from : ℕ → ℕ → List ℕ
range_from i zero = []
range_from i (suc n) = i ∷ range_from (i + 1) n

unfoldable pub sources_at : ℕ → Dict ℕ (List (ℕ × String)) → List (ℕ × String)
sources_at v d = Option.get_or (lookup v d) []

unfoldable pub ports_at : ℕ → Dict ℕ (Dict (List ℕ) ℕ) → Dict (List ℕ) ℕ
ports_at v d = Option.get_or (lookup v d) []

-- The body of the loop over the edges.
unfoldable pub put_edge : ℕ → ℕ → Edge → Plan → Plan
put_edge ue ve e p = record p {
  in_edges = insert ve (sources_at ve p.in_edges ++ (ue, e.out_port) ∷ []) p.in_edges;
  in_by_port =
      if is_empty e.tgt_port
      then p.in_by_port
      else insert ve (insert e.tgt_port ue (ports_at ve p.in_by_port)) p.in_by_port;
}

unfoldable pub put_edges : Dict String ℕ → List Edge → Plan → Result PlanError Plan
put_edges nid_to_exec [] p = ok p
put_edges nid_to_exec (e ∷ edges) p = do
  ue ← or_raise missing_endpoint (lookup e.src nid_to_exec)
  ve ← or_raise missing_endpoint (lookup e.tgt nid_to_exec)
  put_edges nid_to_exec edges (put_edge ue ve e p)

unfoldable pub pass_through_of :
    (List ℕ → Bool) → Dict String (List ℕ) → Dict String ℕ → Dict ℕ Bool → Dict ℕ Bool
pass_through_of passes nt [] d = d
pass_through_of passes nt ((nid, exec) ∷ rest) d =
    pass_through_of passes nt rest (insert exec (passes (label_of nt nid)) d)

module _ (repr : Value → List ℕ) (hash_label : Label → Signature → Signature → Label) where
  unfoldable pub labels_of : Extracted → Dict String Label
  labels_of x =
      let d = build_in_out x.edges in
      wl_refine_labels hash_label d.in_desc d.out_desc (keys x.node_type_by_nid) x.node_type_by_nid
        5

  unfoldable pub sort_key_of : Extracted → String → ℕ → SortKey
  sort_key_of x nid indeg0 =
      let d = build_in_out x.edges in
      node_sort_key x.node_type_by_nid (labels_of x) d.in_desc d.out_desc indeg0
        (length (list_at nid d.out_adj)) nid

  unfoldable pub order_of : Extracted → Outcome
  order_of x =
      let d = build_in_out x.edges in
      canonical_toposort (sort_key_of x) d.out_adj (keys x.node_type_by_nid) d.indeg

  unfoldable pub exec_of : Extracted → Option (Dict String ℕ)
  exec_of x = elim x.node_type_by_nid [ [] ↦ none | _ ∷ _ ↦ number_outcome (order_of x) ]

  unfoldable pub build_nid_to_exec : Fields → Option (Dict String ℕ)
  build_nid_to_exec graph = exec_of (extract_nodes_edges repr graph)

  -- `topo_signature`; the empty text where the code gives up
  module _ (hash_plan : List (List ℕ) → List ExecEdge → ℕ → List ℕ) where
    unfoldable pub signature_in : Extracted → String → Dict String ℕ → List ℕ
    signature_in x output_nid nid_to_exec =
        both (lookup output_nid nid_to_exec) (exec_edges nid_to_exec x.edges)
      where
        both : Option ℕ → Option (List ExecEdge) → List ℕ
        both (some out_exec) (some edges) =
            hash_plan (types_in_order x.node_type_by_nid nid_to_exec) (sorted edges) out_exec
        both _ _ = []

    unfoldable pub topo_signature : Fields → String → List ℕ
    topo_signature graph output_nid =
        let x = extract_nodes_edges repr graph in
        elim (exec_of x) [ none ↦ [] | some nid_to_exec ↦ signature_in x output_nid nid_to_exec ]

  module _ (passes : List ℕ → Bool) where
    -- The plan before the loop over the edges.
    unfoldable pub empty_plan : Extracted → Dict String ℕ → ℕ → Plan
    empty_plan x nid_to_exec out_exec = record {
      exec_order = range_from 0 (length nid_to_exec);
      in_edges = [];
      in_by_port = [];
      pass_through = pass_through_of passes x.node_type_by_nid nid_to_exec [];
      output_exec = out_exec;
    }

    unfoldable pub numbered_plan : Extracted → String → Dict String ℕ → Result PlanError Plan
    numbered_plan x output_nid nid_to_exec = do
      out_exec ← or_raise output_not_found (lookup output_nid nid_to_exec)
      put_edges nid_to_exec x.edges (empty_plan x nid_to_exec out_exec)

    unfoldable pub plan_of : Extracted → String → Result PlanError Plan
    plan_of x output_nid =
        or_raise canonicalization_ambiguous (exec_of x) >>= numbered_plan x output_nid

    unfoldable pub compile_plan : Fields → String → Result PlanError Plan
    compile_plan graph output_nid = plan_of (extract_nodes_edges repr graph) output_nid
