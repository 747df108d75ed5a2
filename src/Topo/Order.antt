-- ===== src/Topo/Order.antt =====
-- The order of `_canonical_toposort` of services/api/nns/topofuse/plan.py: the nodes, each once, and the
-- source of every edge before its target.
use neuralese.Prelude.{
  ℕ, zero, suc, ◌≡◌, refl, sym, ◌∙◌, Bool, true, ◌&&◌, List, [], ◌∷◌, String, string_eq, eqb, elem,
  length, map, All, Distinct, elem-filter, Dict, arith, beq_self,
}
use mathlib.Core.Path.{subst}
use text.Mathlib.TextEquality.{eq_iff}
use neuralese.Topo.Compare.{Ord, is_eq}
use neuralese.Topo.Graph.{Edge, list_at, degree_at, build_in_out, InOut}
use neuralese.Topo.Sort.{
  Outcome, ordered, cycle, ambiguous, out_of_fuel, cons_order, remove, relax, ready, sort_loop,
  step_with, canonical_toposort, default_degrees, mins_of, min_key, key_at,
}
use neuralese.Topo.Sound.{
  count_into, occurrences, elem-remove, degree_at-relax, count_into-remove, out_adj-build,
  indeg-build, degree_at-default, IsFrom,
}

count_into-members :
    (v : String) (xs ys : List String) (edges : List Edge)
    → ((n : String) → elem n xs ≡ elem n ys)
    → count_into v xs edges ≡ count_into v ys edges
unfolding count_into
count_into-members v xs ys [] h = refl
count_into-members v xs ys (e ∷ edges) h =
    ground (arith, h e.src, count_into-members v xs ys edges h)

-- No edge leads to a node from itself or from a later one.
unfoldable pub SourcesFirst : List Edge → List String → Type 0
SourcesFirst edges [] = Unit
SourcesFirst edges (u ∷ order) = (count_into u (u ∷ order) edges ≡ 0) × SourcesFirst edges order

pub record IsOrderOf (edges : List Edge) (nids order : List String) : Type 0 where
  pub members : (n : String) → elem n order ≡ elem n nids
  pub distinct : Distinct order
  pub sources_first : SourcesFirst edges order

ordered_inj : (a b : List String) → ordered a ≡ ordered b → a ≡ b
ordered_inj a b e = cc

cons_order-inv :
    (u : String) (o : Outcome) (order : List String)
    → cons_order u o ≡ ordered order
    → (rest : List String) × (o ≡ ordered rest) × (u ∷ rest ≡ order)
unfolding cons_order
cons_order-inv u (ordered rest) order h = (rest, refl, ordered_inj (u ∷ rest) order h)
cons_order-inv u cycle order h = absurd (ground (arith, h))
cons_order-inv u ambiguous order h = absurd (ground (arith, h))
cons_order-inv u out_of_fuel order h = absurd (ground (arith, h))

module _ (edges : List Edge) (out_adj : Dict String (List String))
    (adjacent : (u v : String)
      → occurrences v (list_at u out_adj) ≡ count_into v (u ∷ []) edges) where
  -- The degree of a node that remains counts the edges to it from nodes that remain.
  unfoldable pub Counted : List String → Dict String ℕ → Type 0
  Counted remaining d =
      (v : String) → elem v remaining ≡ true → degree_at v d ≡ count_into v remaining edges

  pub relax-Counted :
      (u : String) (remaining : List String) (d : Dict String ℕ)
      → elem u remaining ≡ true
      → Counted remaining d
      → Counted (remove u remaining) (relax (remove u remaining) (list_at u out_adj) d)
  unfolding Counted
  relax-Counted u remaining d m c v h = ground (
    arith,
    h,
    degree_at-relax (remove u remaining) (list_at u out_adj) d v,
    adjacent u v,
    count_into-remove v u remaining edges m,
    c v,
    elem-remove v u remaining,
  )

  pub ready-elem :
      (d : Dict String ℕ) (remaining : List String) (u : String)
      → elem u (ready d remaining) ≡ true
      → (elem u remaining ≡ true) × (degree_at u d ≡ 0)
  unfolding ready
  ready-elem d remaining u h =
      ground (arith, h, elem-filter (λ n. eqb (degree_at n d) 0) u remaining)

  first-IsOrderOf :
      (u : String) (remaining rest : List String) (d : Dict String ℕ)
      → elem u remaining ≡ true
      → degree_at u d ≡ 0
      → Counted remaining d
      → IsOrderOf edges (remove u remaining) rest
      → IsOrderOf edges remaining (u ∷ rest)
  unfolding Counted SourcesFirst
  first-IsOrderOf u remaining rest d m z c r = record {
    members = same;
    distinct = (ground (arith, r.members u, elem-remove u u remaining, beq_self u), r.distinct);
    sources_first =
        (count_into-members u (u ∷ rest) remaining edges same ∙ (sym (c u m) ∙ z), r.sources_first);
  }
    where
      same : (n : String) → elem n (u ∷ rest) ≡ elem n remaining
      same n = ground (arith, r.members n, elem-remove n u remaining, eq_iff n u, eq_iff u n, m)

  module _ {K : Type 0} ⦃o : Ord K⦄ (key_of : String → ℕ → K) where
    pub mins-elem :
        (d : Dict String ℕ) (cands : List String) (u : String)
        → elem u (mins_of (key_at key_of out_adj d) cands) ≡ true
        → elem u cands ≡ true
    unfolding mins_of
    mins-elem d [] u h = h
    mins-elem d (c ∷ cands) u h = left_true (elem u (c ∷ cands)) _ (
        sym (
          elem-filter
            (λ n. is_eq (
              o.cmp (key_at key_of out_adj d n)
                (min_key (key_at key_of out_adj d c) (map (key_at key_of out_adj d) cands))))
            u (c ∷ cands))
        ∙ h)
      where
        left_true : (a b : Bool) → (a && b) ≡ true → a ≡ true
        left_true a b h = ground (arith, h)

    Sound : ℕ → Type 0
    Sound fuel =
        (remaining : List String) (d : Dict String ℕ) (order : List String)
        → Counted remaining d
        → sort_loop key_of out_adj fuel remaining d ≡ ordered order
        → IsOrderOf edges remaining order

    step-Sound :
        (fuel : ℕ) (remaining : List String) (d : Dict String ℕ) (order : List String)
        → Counted remaining d
        → Sound fuel
        → (cands mins : List String)
        → ((u : String) → elem u mins ≡ true → elem u (ready d remaining) ≡ true)
        → step_with key_of out_adj (sort_loop key_of out_adj fuel) remaining d cands mins
          ≡ ordered order
        → IsOrderOf edges remaining order
    unfolding Sound
    step-Sound fuel remaining d order c rest [] mins k h = absurd (ground (arith, h))
    step-Sound fuel remaining d order c rest (x ∷ cands) [] k h = absurd (ground (arith, h))
    step-Sound fuel remaining d order c rest (x ∷ cands) (u ∷ w ∷ mins) k h =
        absurd (ground (arith, h))
    step-Sound fuel remaining d order c rest (x ∷ cands) (u ∷ []) k h =
        let (m, z) = ready-elem d remaining u (k u (ground (arith, beq_self u))) in
        let (after, e, same) =
          cons_order-inv u
            (sort_loop key_of out_adj fuel (remove u remaining)
              (relax (remove u remaining) (list_at u out_adj) d))
            order h in
        subst (IsOrderOf edges remaining) same (
          first-IsOrderOf u remaining after d m z c (
            rest (remove u remaining) (relax (remove u remaining) (list_at u out_adj) d) after
              (relax-Counted u remaining d m c) e))

    sort_loop-Sound : (fuel : ℕ) → Sound fuel
    unfolding Sound sort_loop SourcesFirst
    sort_loop-Sound fuel [] d order c h =
        subst (IsOrderOf edges []) (ordered_inj [] order h)
          (record { members = λ n. refl; distinct = tt; sources_first = tt })
    sort_loop-Sound zero (n ∷ remaining) d order c h = absurd (ground (arith, h))
    sort_loop-Sound (suc fuel) (n ∷ remaining) d order c h =
        step-Sound fuel (n ∷ remaining) d order c (sort_loop-Sound fuel) (ready d (n ∷ remaining))
          (mins_of (key_at key_of out_adj d) (ready d (n ∷ remaining)))
          (mins-elem d (ready d (n ∷ remaining))) h

module _ (edges : List Edge) where
  abbrev no_edges : InOut
  no_edges = record { in_desc = []; out_desc = []; out_adj = []; in_adj = []; indeg = [] }

  pub build_in_out-adjacent :
      (u v : String)
      → occurrences v (list_at u (build_in_out edges).out_adj) ≡ count_into v (u ∷ []) edges
  unfolding build_in_out list_at occurrences
  build_in_out-adjacent u v = ground (arith, out_adj-build u v edges no_edges)

  pub build_in_out-Counted :
      (nids : List String)
      → All (IsFrom nids) edges
      → Counted edges
          (build_in_out edges).out_adj
          build_in_out-adjacent
          nids
          (default_degrees nids (build_in_out edges).indeg)
  unfolding build_in_out Counted degree_at
  build_in_out-Counted nids from v m = ground (
    arith,
    degree_at-default nids (build_in_out edges).indeg v,
    indeg-build v nids edges no_edges from,
  )

module _ {K : Type 0} ⦃o : Ord K⦄ (key_of : String → ℕ → K) (nids : List String)
    (edges : List Edge) where
  -- An order that is found has the nodes, each once, and no edge leads to a node from itself or from a
  -- later one.
  pub canonical_toposort-IsOrderOf :
      (order : List String)
      → All (IsFrom nids) edges
      → canonical_toposort key_of (build_in_out edges).out_adj nids (build_in_out edges).indeg
        ≡ ordered order
      → IsOrderOf edges nids order
  unfolding canonical_toposort Sound
  canonical_toposort-IsOrderOf order from =
      sort_loop-Sound edges (build_in_out edges).out_adj (build_in_out-adjacent edges) key_of
        (length nids) nids (default_degrees nids (build_in_out edges).indeg) order
        (build_in_out-Counted edges nids from)
