-- ===== src/Topo/Fuel.antt =====
-- The loop of `_canonical_toposort` of services/api/nns/topofuse/plan.py ends on every graph.
use neuralese.Prelude.{
  ℕ, zero, suc, ◌≤◌, ◌≡◌, ◌≢◌, true, List, [], ◌∷◌, String, string_eq, elem, length, Dict, arith,
  beq_self,
}
use neuralese.Topo.Compare.{Ord}
use neuralese.Topo.Graph.{Edge, list_at, build_in_out}
use neuralese.Topo.Sort.{
  Outcome, ordered, cycle, ambiguous, out_of_fuel, cons_order, remove, relax, ready, sort_loop,
  step_with, canonical_toposort, default_degrees, mins_of, key_at,
}
use neuralese.Topo.Order.{build_in_out-adjacent, ready-elem, mins-elem}
use neuralese.Topo.Ends.{length-remove}

cons_order-fuel : (u : String) (o : Outcome) → o ≢ out_of_fuel → cons_order u o ≢ out_of_fuel
unfolding cons_order
cons_order-fuel u (ordered order) h e = ground (arith, e)
cons_order-fuel u cycle h e = ground (arith, e)
cons_order-fuel u ambiguous h e = ground (arith, e)
cons_order-fuel u out_of_fuel h e = h e

module _ (edges : List Edge) {K : Type 0} ⦃o : Ord K⦄ (key_of : String → ℕ → K) where
  abbrev out_adj : Dict String (List String)
  out_adj = (build_in_out edges).out_adj

  Lasts : ℕ → Type 0
  Lasts fuel =
      (remaining : List String) (d : Dict String ℕ)
      → length remaining ≤ fuel
      → sort_loop key_of out_adj fuel remaining d ≢ out_of_fuel

  step-Lasts :
      (fuel : ℕ) (n : String) (rest : List String) (d : Dict String ℕ)
      → length (n ∷ rest) ≤ suc fuel
      → Lasts fuel
      → (cands mins : List String)
      → ((u : String) → elem u mins ≡ true → elem u (ready d (n ∷ rest)) ≡ true)
      → step_with key_of out_adj (sort_loop key_of out_adj fuel) (n ∷ rest) d cands mins
        ≢ out_of_fuel
  unfolding Lasts
  step-Lasts fuel n rest d f loop [] mins m e = ground (arith, e)
  step-Lasts fuel n rest d f loop (x ∷ cands) [] m e = ground (arith, e)
  step-Lasts fuel n rest d f loop (x ∷ cands) (u ∷ w ∷ mins) m e = ground (arith, e)
  step-Lasts fuel n rest d f loop (x ∷ cands) (u ∷ []) m e =
      let (inside, z) =
        ready-elem edges out_adj (build_in_out-adjacent edges) d (n ∷ rest) u
          (m u (ground (arith, beq_self u))) in
      cons_order-fuel u _
        (loop (remove u (n ∷ rest)) (relax (remove u (n ∷ rest)) (list_at u out_adj) d)
          (omega (arith, f, length-remove u (n ∷ rest) inside)))
        e

  loop-Lasts : (fuel : ℕ) → Lasts fuel
  unfolding Lasts sort_loop
  loop-Lasts fuel [] d f e = ground (arith, e)
  loop-Lasts zero (n ∷ rest) d f e = absurd (omega (arith, f))
  loop-Lasts (suc fuel) (n ∷ rest) d f e =
      step-Lasts fuel n rest d f (loop-Lasts fuel) (ready d (n ∷ rest))
        (mins_of (key_at key_of out_adj d) (ready d (n ∷ rest)))
        (mins-elem edges out_adj (build_in_out-adjacent edges) key_of d (ready d (n ∷ rest))) e

  -- The sort of a graph never runs out of fuel, also where the graph has cycles.
  pub canonical_toposort_total :
      (nids : List String) (indeg : Dict String ℕ)
      → canonical_toposort key_of (build_in_out edges).out_adj nids indeg ≢ out_of_fuel
  unfolding canonical_toposort Lasts
  canonical_toposort_total nids indeg =
      loop-Lasts (length nids) nids (default_degrees nids indeg) (omega arith)
