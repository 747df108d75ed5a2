-- ===== src/Topo/Ends.antt =====
-- The loop of `_canonical_toposort` of services/api/nns/topofuse/plan.py ends, and finds no cycle where there is none.
use neuralese.Prelude.{
  ℕ, zero, suc, ◌<◌, ◌≤◌, ◌≡◌, refl, ap, Bool, true, not, List, [], ◌∷◌, String, string_eq, ◌==◌,
  eqb, filter, elem, length, All, Dict, elem-filter, Bool-cases, inl, inr, ◌⊎◌, arith, beq_self,
}
use text.Mathlib.TextEquality.{eq_iff}
use neuralese.Topo.Compare.{Ord}
use neuralese.Topo.Graph.{Edge, list_at, degree_at, build_in_out}
use neuralese.Topo.Sort.{
  Outcome, ordered, ambiguous, cons_order, remove, relax, ready, sort_loop, step_with,
  canonical_toposort, default_degrees, mins_of, key_at,
}
use neuralese.Topo.Sound.{count_into, occurrences, elem-remove, IsFrom}
use neuralese.Topo.Order.{
  SourcesFirst, IsOrderOf, build_in_out-adjacent, build_in_out-Counted, Counted, relax-Counted,
  ready-elem, mins-elem,
}

length-filter : (p : String → Bool) (xs : List String) → length (filter p xs) ≤ length xs
length-filter p [] = omega arith
length-filter p (x ∷ xs) = ground (arith, length-filter p xs)

pub length-remove :
    (u : String) (xs : List String) → elem u xs ≡ true → length (remove u xs) < length xs
unfolding remove
length-remove u [] h = absurd (ground (arith, h))
length-remove u (x ∷ xs) h = elim (Bool-cases (x == u)) [
  | inl e ↦ rw e (omega (arith, length-filter (λ n. not (n == u)) xs))
  | inr e ↦ rw e (omega (arith, length-remove u xs (ground (arith, h, e))))
]

count_into-le :
    (v : String) (xs ys : List String) (edges : List Edge)
    → ((n : String) → elem n xs ≡ true → elem n ys ≡ true)
    → count_into v xs edges ≤ count_into v ys edges
unfolding count_into
count_into-le v xs ys [] h = omega arith
count_into-le v xs ys (e ∷ edges) h = ground (arith, h e.src, count_into-le v xs ys edges h)

-- Among the nodes of a list, all of which stand in an order, the first one in the order has no edge
-- from the others.
first_free :
    (edges : List Edge) (order remaining : List String) (n : String)
    → SourcesFirst edges order
    → elem n remaining ≡ true
    → ((m : String) → elem m remaining ≡ true → elem m order ≡ true)
    → (u : String) × (elem u remaining ≡ true) × (count_into u remaining edges ≡ 0)
unfolding SourcesFirst
first_free edges [] remaining n s h k = absurd (ground (arith, k n h))
first_free edges (u ∷ order) remaining n s h k = elim (Bool-cases (elem u remaining)) [
  | inl e ↦ (u, e, omega (arith, s.0, count_into-le u remaining (u ∷ order) edges k))
  | inr e ↦
      first_free edges order remaining n (s.1) h (λ m d. ground (arith, e, d, k m d, eq_iff u m))
]

Ends : Outcome → Type 0
Ends o = ((order : List String) × (o ≡ ordered order)) ⊎ (o ≡ ambiguous)

cons_order-Ends : (u : String) (o : Outcome) → Ends o → Ends (cons_order u o)
unfolding Ends cons_order
cons_order-Ends u o (inl (order, e)) = rw e (inl (u ∷ order, refl))
cons_order-Ends u o (inr e) = rw e (inr refl)

module _ (edges : List Edge) (out_adj : Dict String (List String))
    (adjacent : (u v : String) → occurrences v (list_at u out_adj) ≡ count_into v (u ∷ []) edges)
    (order : List String) (acyclic : SourcesFirst edges order) {K : Type 0} ⦃o : Ord K⦄
    (key_of : String → ℕ → K) where
  LoopEnds : ℕ → Type 0
  LoopEnds fuel =
      (remaining : List String) (d : Dict String ℕ)
      → Counted edges out_adj adjacent remaining d
      → length remaining ≤ fuel
      → ((m : String) → elem m remaining ≡ true → elem m order ≡ true)
      → Ends (sort_loop key_of out_adj fuel remaining d)

  step-Ends :
      (fuel : ℕ) (n : String) (rest : List String) (d : Dict String ℕ)
      → Counted edges out_adj adjacent (n ∷ rest) d
      → length (n ∷ rest) ≤ suc fuel
      → ((m : String) → elem m (n ∷ rest) ≡ true → elem m order ≡ true)
      → LoopEnds fuel
      → (cands mins : List String) → cands ≡ ready d (n ∷ rest)
      → ((u : String) → elem u mins ≡ true → elem u (ready d (n ∷ rest)) ≡ true)
      → Ends (step_with key_of out_adj (sort_loop key_of out_adj fuel) (n ∷ rest) d cands mins)
  unfolding LoopEnds Ends Counted ready
  step-Ends fuel n rest d c f k loop [] mins e m =
      let (u, inside, free) =
        first_free edges order (n ∷ rest) n acyclic (ground (arith, beq_self n)) k in
      absurd (
        ground (
          arith,
          inside,
          c u inside,
          free,
          ap (elem u) e,
          elem-filter (λ x. eqb (degree_at x d) 0) u (n ∷ rest),
        ))
  step-Ends fuel n rest d c f k loop (x ∷ cands) [] e m = inr refl
  step-Ends fuel n rest d c f k loop (x ∷ cands) (u ∷ w ∷ mins) e m = inr refl
  step-Ends fuel n rest d c f k loop (x ∷ cands) (u ∷ []) e m =
      let (inside, z) =
        ready-elem edges out_adj adjacent d (n ∷ rest) u (m u (ground (arith, beq_self u))) in
      cons_order-Ends u _ (
        loop (remove u (n ∷ rest)) (relax (remove u (n ∷ rest)) (list_at u out_adj) d)
          (relax-Counted edges out_adj adjacent u (n ∷ rest) d inside c)
          (omega (arith, f, length-remove u (n ∷ rest) inside))
          (λ y h. k y (ground (arith, h, elem-remove y u (n ∷ rest)))))

  loop_ends : (fuel : ℕ) → LoopEnds fuel
  unfolding LoopEnds sort_loop Ends
  loop_ends fuel [] d c f k = inl ([], refl)
  loop_ends zero (n ∷ rest) d c f k = absurd (omega (arith, f))
  loop_ends (suc fuel) (n ∷ rest) d c f k =
      step-Ends fuel n rest d c f k (loop_ends fuel) (ready d (n ∷ rest))
        (mins_of (key_at key_of out_adj d) (ready d (n ∷ rest))) refl
        (mins-elem edges out_adj adjacent key_of d (ready d (n ∷ rest)))

-- If the nodes can be ordered at all, the loop ends, and its outcome is an order or the report of two
-- nodes that cannot be told apart.
pub canonical_toposort-ends :
    {K : Type 0} ⦃o : Ord K⦄ (key_of : String → ℕ → K) (nids : List String) (edges : List Edge)
    (order : List String)
    → All (IsFrom nids) edges
    → IsOrderOf edges nids order
    → let outcome =
        canonical_toposort key_of (build_in_out edges).out_adj nids (build_in_out edges).indeg in
      ((found : List String) × (outcome ≡ ordered found)) ⊎ (outcome ≡ ambiguous)
unfolding canonical_toposort LoopEnds Ends
canonical_toposort-ends key_of nids edges order from h =
    loop_ends edges (build_in_out edges).out_adj (build_in_out-adjacent edges) order h.sources_first
      key_of (length nids) nids (default_degrees nids (build_in_out edges).indeg)
      (build_in_out-Counted edges nids from) (omega arith) (λ m e. ground (arith, e, h.members m))
