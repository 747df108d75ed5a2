-- ===== src/Topo/Sort.antt =====
-- `_canonical_toposort` of services/api/nns/topofuse/plan.py. The set of the nodes that remain is kept in
-- the order of `nids`, the `while` runs on fuel, and what the code returns `None` for is told apart.
use neuralese.Prelude.{
  ℕ, zero, suc, ◌-◌, not, List, [], ◌∷◌, String, string_eq, ◌==◌, eqb, if◌then◌else◌, filter, elem,
  length, map, Dict, insert,
}
use neuralese.Topo.Compare.{Ord, is_le, is_eq}
use neuralese.Topo.Graph.{list_at, degree_at}

pub data Outcome : Type 0 where
  ordered : List String → Outcome
  cycle ambiguous out_of_fuel : Outcome

unfoldable pub cons_order : String → Outcome → Outcome
cons_order u (ordered order) = ordered (u ∷ order)
cons_order u other = other

-- `indeg_m`: every node's degree, 0 where there is none yet
unfoldable pub default_degrees : List String → Dict String ℕ → Dict String ℕ
default_degrees [] d = d
default_degrees (nid ∷ nids) d = default_degrees nids (insert nid (degree_at nid d) d)

-- `remaining.remove(u)`
unfoldable pub remove : String → List String → List String
remove u remaining = filter (λ n. not (n == u)) remaining

-- The loop over `out_adj.get(u, [])`: the degree of a node that remains is positive here.
unfoldable pub relax : List String → List String → Dict String ℕ → Dict String ℕ
relax remaining [] d = d
relax remaining (v ∷ targets) d =
    relax remaining targets (if elem v remaining then insert v (degree_at v d - 1) d else d)

unfoldable pub ready : Dict String ℕ → List String → List String
ready d remaining = filter (λ n. eqb (degree_at n d) 0) remaining

module _ {K : Type 0} ⦃o : Ord K⦄ where
  -- `keys.sort(key=...)`, and `keys[0][0]`
  unfoldable pub min_key : K → List K → K
  min_key k [] = k
  min_key k (j ∷ keys) = min_key (if is_le (o.cmp k j) then k else j) keys

  -- The candidates whose key is the least.
  unfoldable pub mins_of : (String → K) → List String → List String
  mins_of key [] = []
  mins_of key (c ∷ cands) =
      filter (λ n. is_eq (o.cmp (key n) (min_key (key c) (map key cands)))) (c ∷ cands)

module _ {K : Type 0} ⦃o : Ord K⦄ (key_of : String → ℕ → K)
    (out_adj : Dict String (List String)) where
  unfoldable pub key_at : Dict String ℕ → String → K
  key_at d n = key_of n (degree_at n d)

  abbrev pub step_with :
      (List String → Dict String ℕ → Outcome)
      → List String
      → Dict String ℕ
      → List String
      → List String
      → Outcome
  step_with continue remaining d [] mins = cycle
  step_with continue remaining d (c ∷ cands) (u ∷ []) =
      cons_order u
        (continue (remove u remaining) (relax (remove u remaining) (list_at u out_adj) d))
  step_with continue remaining d (c ∷ cands) other = ambiguous

  unfoldable pub sort_loop : ℕ → List String → Dict String ℕ → Outcome
  sort_loop fuel [] d = ordered []
  sort_loop zero (n ∷ remaining) d = out_of_fuel
  sort_loop (suc fuel) (n ∷ remaining) d =
      step_with (sort_loop fuel) (n ∷ remaining) d (ready d (n ∷ remaining))
        (mins_of (key_at d) (ready d (n ∷ remaining)))

  unfoldable pub canonical_toposort : List String → Dict String ℕ → Outcome
  canonical_toposort nids indeg = sort_loop (length nids) nids (default_degrees nids indeg)
