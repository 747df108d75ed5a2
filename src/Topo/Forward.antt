-- ===== src/Topo/Forward.antt =====
-- What `compile_plan` of services/api/nns/topofuse/plan.py promises of its numbers: they are the positions
-- of an order, so that every node reads from smaller numbers only.
use neuralese.Prelude.{
  ℕ, suc, ◌+◌, ◌<◌, ◌≤◌, ◌≡◌, refl, sym, ap, ◌∙◌, Bool, true, Option, none, some, List, [], ◌∷◌,
  ◌++◌, String, string_eq, nat_eq, bytes_eq, ◌==◌, if◌then◌else◌, elem, length, All, All-append,
  Dict, lookup, insert, lookup-insert, arith, either_branch, Bool-cases, inl, inr, Result, ok,
  or_raise->>=,
}
use mathlib.Core.Path.{subst}
use text.Mathlib.TextEquality.{eq_iff}
use neuralese.Python.Values.{Value, Fields}
use neuralese.Topo.Compare.{nat_ord, string_ord, pair_ord, list_ord}
use neuralese.Topo.Graph.{Edge, Extracted, extract_nodes_edges}
use neuralese.Topo.Sort.{Outcome, ordered, cycle, ambiguous, out_of_fuel}
use neuralese.Topo.Sound.{count_into, IsFrom}
use neuralese.Topo.Order.{SourcesFirst, IsOrderOf, canonical_toposort-IsOrderOf}
use neuralese.Topo.Labels.{Label, Signature}
use neuralese.Topo.Extract.{extract_nodes_edges-IsFrom}
use neuralese.Topo.Plan.{
  keys, number_from, number_outcome, exec_of, order_of, sort_key_of, PlanError, missing_endpoint,
  canonicalization_ambiguous, output_not_found, Plan, put_edge, put_edges, empty_plan,
  numbered_plan, plan_of, compile_plan, range_from, sources_at, ports_at,
}

lookup-number_from_le :
    (i : ℕ) (order : List String) (n : String) (a : ℕ)
    → lookup n (number_from i order) ≡ some a
    → (i ≤ a) × (elem n order ≡ true)
unfolding number_from
lookup-number_from_le i [] n a h = absurd (ground (arith, h))
lookup-number_from_le i (u ∷ order) n a h =
    ground (arith, h, lookup-number_from_le (i + 1) order n a)

SourcesFirst-tail :
    (e : Edge) (edges : List Edge) (order : List String)
    → SourcesFirst (e ∷ edges) order
    → SourcesFirst edges order
unfolding SourcesFirst count_into
SourcesFirst-tail e edges [] h = tt
SourcesFirst-tail e edges (u ∷ order) (h, hs) =
    (omega (arith, h), SourcesFirst-tail e edges order hs)

-- The number of an edge's source is smaller than that of its target.
number_from_lt :
    (e : Edge) (edges : List Edge) (i : ℕ) (order : List String) (a b : ℕ)
    → SourcesFirst (e ∷ edges) order
    → lookup e.src (number_from i order) ≡ some a
    → lookup e.tgt (number_from i order) ≡ some b
    → a < b
unfolding SourcesFirst count_into number_from
number_from_lt e edges i [] a b h x y = absurd (ground (arith, x))
number_from_lt e edges i (u ∷ order) a b (h, hs) x y = ground (
  arith,
  h,
  x,
  y,
  eq_iff u e.tgt,
  eq_iff e.tgt u,
  eq_iff u e.src,
  lookup-number_from_le (i + 1) order e.src a,
  lookup-number_from_le (i + 1) order e.tgt b,
  number_from_lt e edges (i + 1) order a b hs,
)

-- Every node reads from smaller numbers only, by its list of edges and by its ports.
pub record IsForward (p : Plan) : Type 0 where
  pub by_edges : (v : ℕ) → All (λ s. s.0 < v) (sources_at v p.in_edges)
  pub by_ports :
      (v : ℕ) (port : List ℕ) (u : ℕ) → lookup port (ports_at v p.in_by_port) ≡ some u → u < v

abbrev compiled : Plan → Result PlanError Plan
compiled p = ok p

ok_inj : (p q : Plan) → compiled p ≡ compiled q → p ≡ q
ok_inj p q e = cc

eqb→eq : (a b : ℕ) → (a == b) ≡ true → a ≡ b
eqb→eq a b e = (nat_eq.beq_iff a b).0 e

sources_at-insert :
    (ve v : ℕ) (s : List (ℕ × String)) (d : Dict ℕ (List (ℕ × String)))
    → sources_at v (insert ve s d) ≡ (if ve == v then s else sources_at v d)
unfolding sources_at
sources_at-insert ve v s d = ground (arith, lookup-insert ve v s d)

ports_at-insert :
    (ve v : ℕ) (s : Dict (List ℕ) ℕ) (d : Dict ℕ (Dict (List ℕ) ℕ))
    → ports_at v (insert ve s d) ≡ (if ve == v then s else ports_at v d)
unfolding ports_at
ports_at-insert ve v s d = ground (arith, lookup-insert ve v s d)

ByEdges : Dict ℕ (List (ℕ × String)) → Type 0
ByEdges d = (v : ℕ) → All (λ s. s.0 < v) (sources_at v d)

ByPorts : Dict ℕ (Dict (List ℕ) ℕ) → Type 0
ByPorts d = (v : ℕ) (port : List ℕ) (u : ℕ) → lookup port (ports_at v d) ≡ some u → u < v

insert-ByEdges :
    (ue ve : ℕ) (out : String) (d : Dict ℕ (List (ℕ × String)))
    → ue < ve
    → ByEdges d
    → ByEdges (insert ve (sources_at ve d ++ (ue, out) ∷ []) d)
unfolding ByEdges
insert-ByEdges ue ve out d h f v = elim (Bool-cases (ve == v)) [
  | inl e ↦
      rw (sources_at-insert ve v (sources_at ve d ++ (ue, out) ∷ []) d, e)
        (All-append (λ s. s.0 < v) (sources_at ve d) _
          (subst (λ w. All (λ s. s.0 < w) (sources_at ve d)) (eqb→eq ve v e) (f ve))
          (subst (λ w. ue < w) (eqb→eq ve v e) h, tt))
  | inr e ↦ rw (sources_at-insert ve v (sources_at ve d ++ (ue, out) ∷ []) d, e) (f v)
]

insert-ByPorts :
    (ue ve : ℕ) (port : List ℕ) (d : Dict ℕ (Dict (List ℕ) ℕ))
    → ue < ve
    → ByPorts d
    → ByPorts (insert ve (insert port ue (ports_at ve d)) d)
unfolding ByPorts
insert-ByPorts ue ve port d h f v q u e = ground (
  arith,
  e,
  h,
  f v q u,
  f ve q u,
  ports_at-insert ve v (insert port ue (ports_at ve d)) d,
  lookup-insert port q ue (ports_at ve d),
)

put_edge-IsForward :
    (ue ve : ℕ) (e : Edge) (p : Plan) → ue < ve → IsForward p → IsForward (put_edge ue ve e p)
unfolding put_edge ByEdges ByPorts
put_edge-IsForward ue ve e p h f = record {
  by_edges = insert-ByEdges ue ve e.out_port p.in_edges h f.by_edges;
  by_ports =
      either_branch ByPorts _ f.by_ports
        (insert-ByPorts ue ve e.tgt_port p.in_by_port h f.by_ports);
}

put_edges-IsForward :
    (order : List String) (edges : List Edge) (p q : Plan)
    → SourcesFirst edges order
    → IsForward p
    → put_edges (number_from 0 order) edges p ≡ ok q
    → IsForward q × (q.exec_order ≡ p.exec_order) × (q.output_exec ≡ p.output_exec)
unfolding put_edges put_edge
put_edges-IsForward order [] p q h f e =
    let same = ok_inj p q e in
    (subst IsForward same f, ap (λ z. z.exec_order) (sym same), ap (λ z. z.output_exec) (sym same))
put_edges-IsForward order (x ∷ edges) p q h f e =
    let (ue, from, e1) = or_raise->>= missing_endpoint _ _ e in
    let (ve, to, e2) = or_raise->>= missing_endpoint _ _ e1 in
    put_edges-IsForward order edges (put_edge ue ve x p) q (SourcesFirst-tail x edges order h)
      (put_edge-IsForward ue ve x p (number_from_lt x edges 0 order ue ve h from to) f) e2

number_outcome-inv :
    (o : Outcome) (d : Dict String ℕ)
    → number_outcome o ≡ some d
    → (order : List String) × (o ≡ ordered order) × (number_from 0 order ≡ d)
unfolding number_outcome
number_outcome-inv (ordered order) d e = (order, refl, cc)
number_outcome-inv cycle d e = absurd (ground (arith, e))
number_outcome-inv ambiguous d e = absurd (ground (arith, e))
number_outcome-inv out_of_fuel d e = absurd (ground (arith, e))

nonempty-inv :
    (nodes : Dict String (List ℕ)) (o : Option (Dict String ℕ)) (d : Dict String ℕ)
    → elim nodes [ [] ↦ none | _ ∷ _ ↦ o ] ≡ some d
    → o ≡ some d
nonempty-inv [] o d e = absurd (ground (arith, e))
nonempty-inv (n ∷ nodes) o d e = e

length-number_from : (i : ℕ) (order : List String) → length (number_from i order) ≡ length order
unfolding number_from
length-number_from i [] = refl
length-number_from i (n ∷ order) = ap suc (length-number_from (i + 1) order)

-- What a plan promises: its numbers are the positions of an order of the nodes, `exec_order` counts them,
-- the output has its number, and every node reads from smaller numbers only.
pub record IsPlanOf (x : Extracted) (output_nid : String) (order : List String) (p : Plan)
    : Type 0 where
  pub is_order : IsOrderOf x.edges (keys x.node_type_by_nid) order
  pub counts : p.exec_order ≡ range_from 0 (length order)
  pub has_output : lookup output_nid (number_from 0 order) ≡ some p.output_exec
  pub forward : IsForward p

module _ (repr : Value → List ℕ) (hash_label : Label → Signature → Signature → Label)
    (passes : List ℕ → Bool) where
  exec_of-inv :
      (x : Extracted) (d : Dict String ℕ)
      → exec_of repr hash_label x ≡ some d
      → (order : List String) × (order_of repr hash_label x ≡ ordered order)
        × (number_from 0 order ≡ d)
  unfolding exec_of
  exec_of-inv x d e =
      number_outcome-inv (order_of repr hash_label x) d (nonempty-inv x.node_type_by_nid _ d e)

  order_of-IsOrderOf :
      (x : Extracted) (order : List String)
      → All (IsFrom (keys x.node_type_by_nid)) x.edges
      → order_of repr hash_label x ≡ ordered order
      → IsOrderOf x.edges (keys x.node_type_by_nid) order
  unfolding order_of
  order_of-IsOrderOf x order from e =
      canonical_toposort-IsOrderOf (sort_key_of repr hash_label x) (keys x.node_type_by_nid) x.edges
        order from e

  numbered_plan-IsPlanOf :
      (x : Extracted) (output_nid : String) (order : List String) (p : Plan)
      → IsOrderOf x.edges (keys x.node_type_by_nid) order
      → numbered_plan repr hash_label passes x output_nid (number_from 0 order) ≡ ok p
      → IsPlanOf x output_nid order p
  unfolding numbered_plan empty_plan sources_at ports_at
  numbered_plan-IsPlanOf x output_nid order p h e =
      let numbers = number_from 0 order in
      let (out, found, e1) = or_raise->>= output_not_found (lookup output_nid numbers) _ e in
      let start = empty_plan repr hash_label passes x numbers out in
      let (forward, counts, output) =
        put_edges-IsForward order x.edges start p h.sources_first
          (record { by_edges = λ v. tt; by_ports = λ v port u n. absurd (ground (arith, n)) }) e1 in
      record {
        is_order = h;
        counts = counts ∙ ap (range_from 0) (length-number_from 0 order);
        has_output = found ∙ ap some (sym output);
        forward = forward;
      }

  -- A graph that is compiled has an order of its nodes that the plan numbers, and in the plan every node
  -- reads, by its edges and by its ports, from smaller numbers only.
  pub compile_plan-IsPlanOf :
      (graph : Fields) (output_nid : String) (p : Plan)
      → compile_plan repr hash_label passes graph output_nid ≡ ok p
      → (order : List String) × IsPlanOf (extract_nodes_edges repr graph) output_nid order p
  unfolding compile_plan plan_of
  compile_plan-IsPlanOf graph output_nid p e =
      let x = extract_nodes_edges repr graph in
      let (numbers, found, e1) =
        or_raise->>= canonicalization_ambiguous (exec_of repr hash_label x)
          (numbered_plan repr hash_label passes x output_nid) e in
      let (order, sorts, same) = exec_of-inv x numbers found in
      (
        order,
        numbered_plan-IsPlanOf x output_nid order p
            (order_of-IsOrderOf x order (extract_nodes_edges-IsFrom repr graph) sorts)
            (subst (λ n. numbered_plan repr hash_label passes x output_nid n ≡ ok p) (sym same) e1),
      )
