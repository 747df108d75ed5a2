-- ===== src/Summary/Complete.antt =====
-- `_reachable_distances` of services/backend/axon/graph_summary.py finds just the nodes to which walks lead.
use neuralese.Prelude.{
  ℕ, zero, suc, ◌+◌, ◌≡◌, ◌↔◌, refl, sym, ap, ◌∙◌, Bool, true, false, not, ◌||◌, some, Bool-cases,
  ◌⊎◌, inl, inr, beq_self, List, [], ◌∷◌, ◌++◌, String, string_eq, ◌==◌, elem, Dict, lookup, insert,
  arith,
}
use mathlib.Core.Path.{subst}
use package.text.Mathlib.TextEquality.{eq_iff}
use neuralese.Topo.Plan.{keys}
use neuralese.Topo.Extract.{elem-keys-insert}
use neuralese.Summary.Reach.{
  Edge, Scene, Queue, is_node, model_outputs, tags_of, push_all, search_loop, search_fuel,
  reachable_distances,
}
use neuralese.Summary.Walks.{Walk, here, step, reachable_distances-Walk}

queued : String → Queue → Bool
queued v [] = false
queued v ((tag, d) ∷ queue) = tag == v || queued v queue

queued-append : (v : String) (xs ys : Queue) → queued v (xs ++ ys) ≡ (queued v xs || queued v ys)
unfolding queued
queued-append v [] ys = refl
queued-append v ((tag, d) ∷ xs) ys = ground (arith, queued-append v xs ys)

queued-push_all :
    (v : String) (d : ℕ) (edges : List Edge) → queued v (push_all edges d) ≡ elem v (tags_of edges)
unfolding queued push_all
queued-push_all v d [] = refl
queued-push_all v d (e ∷ edges) = ground (arith, queued-push_all v d edges)

lookup-keys :
    (v : String) (found : Dict String ℕ)
    → elem v (keys found) ≡ true
    → (d : ℕ) × (lookup v found ≡ some d)
unfolding keys
lookup-keys v [] m = absurd (ground (arith, m))
lookup-keys v ((tag, d) ∷ found) m = elim (Bool-cases (tag == v)) [
  | inl same ↦ (d, rw same refl)
  | inr other ↦ let (n, e) = lookup-keys v found (ground (arith, m, other)) in (n, rw other e)
]

module _ (scene : Scene) where
  -- The tag is found already, or will be.
  abbrev Pending : Queue → Dict String ℕ → String → Type 0
  Pending queue found v = is_node scene v ≡ true → (elem v (keys found) || queued v queue) ≡ true

  IsClosed : Queue → Dict String ℕ → Type 0
  IsClosed queue found =
      (u v : String)
      → elem u (keys found) ≡ true
      → elem v (tags_of (model_outputs scene u)) ≡ true
      → Pending queue found v

  expand-IsClosed :
      (u : String) (n : ℕ) (queue : Queue) (found : Dict String ℕ)
      → IsClosed ((u, n) ∷ queue) found
      → IsClosed (queue ++ push_all (model_outputs scene u) (n + 1)) (insert u n found)
  unfolding IsClosed queued
  expand-IsClosed u n queue found h s v m t k = elim (Bool-cases (u == s)) [
    | inl same ↦
        let at =
          subst (λ z. elem v (tags_of (model_outputs scene z)) ≡ true) (sym ((eq_iff u s).0 same))
            t in
        ground (
          arith,
          at,
          queued-append v queue (push_all (model_outputs scene u) (n + 1)),
          queued-push_all v (n + 1) (model_outputs scene u),
        )
    | inr other ↦ ground (
      arith,
      h s v,
      m,
      t,
      k,
      other,
      elem-keys-insert u s n found,
      elem-keys-insert u v n found,
      queued-append v queue (push_all (model_outputs scene u) (n + 1)),
    )
  ]

  skip-Pending :
      (u : String) (n : ℕ) (queue : Queue) (found : Dict String ℕ)
      → (elem u (keys found) || not (is_node scene u)) ≡ true
      → (v : String) → Pending ((u, n) ∷ queue) found v
      → Pending queue found v
  unfolding queued
  skip-Pending u n queue found skip v h k = elim (Bool-cases (u == v)) [
    | inl same ↦
        let at = (eq_iff u v).0 same in
        let node = ap (is_node scene) at in
        let known = ap (λ z. elem z (keys found)) at in ground (arith, k, skip, node, known)
    | inr other ↦ ground (arith, h k, other)
  ]

  skip-IsClosed :
      (u : String) (n : ℕ) (queue : Queue) (found : Dict String ℕ)
      → (elem u (keys found) || not (is_node scene u)) ≡ true
      → IsClosed ((u, n) ∷ queue) found
      → IsClosed queue found
  unfolding IsClosed
  skip-IsClosed u n queue found skip h s v m t = skip-Pending u n queue found skip v (h s v m t)

  search_loop-IsClosed :
      (fuel : ℕ) (queue : Queue) (found ended : Dict String ℕ) (start : String)
      → IsClosed queue found
      → Pending queue found start
      → search_loop scene fuel queue found ≡ some ended
      → IsClosed [] ended × Pending [] ended start
  unfolding search_loop queued
  search_loop-IsClosed fuel [] found ended start c s e =
      subst (λ d. IsClosed [] d × Pending [] d start) (some_inj found ended e) (c, s)
    where
      some_inj : (a b : Dict String ℕ) → some a ≡ some b → a ≡ b
      some_inj a b e = cc
  search_loop-IsClosed zero (first ∷ queue) found ended start c s e = absurd (ground (arith, e))
  search_loop-IsClosed (suc fuel) ((u, n) ∷ queue) found ended start c s e =
      elim (Bool-cases (elem u (keys found) || not (is_node scene u))) [
        | inl skip ↦
            search_loop-IsClosed fuel queue found ended start (skip-IsClosed u n queue found skip c)
              (skip-Pending u n queue found skip start s) (sym (rw skip refl) ∙ e)
        | inr new ↦
            search_loop-IsClosed fuel (queue ++ push_all (model_outputs scene u) (n + 1))
              (insert u n found) ended start (expand-IsClosed u n queue found c)
              (λ k. ground (
                arith,
                s k,
                elem-keys-insert u start n found,
                queued-append start queue (push_all (model_outputs scene u) (n + 1)),
              ))
              (sym (rw new refl) ∙ e)
      ]

  -- Only nodes are found.
  search_loop-nodes :
      (fuel : ℕ) (queue : Queue) (found ended : Dict String ℕ)
      → ((v : String) → elem v (keys found) ≡ true → is_node scene v ≡ true)
      → search_loop scene fuel queue found ≡ some ended
      → (v : String) → elem v (keys ended) ≡ true
      → is_node scene v ≡ true
  unfolding search_loop
  search_loop-nodes fuel [] found ended h e v m =
      h v (ap (λ d. elem v (keys d)) (some_inj found ended e) ∙ m)
    where
      some_inj : (a b : Dict String ℕ) → some a ≡ some b → a ≡ b
      some_inj a b e = cc
  search_loop-nodes zero (first ∷ queue) found ended h e v m = absurd (ground (arith, e))
  search_loop-nodes (suc fuel) ((u, n) ∷ queue) found ended h e v m =
      elim (Bool-cases (elem u (keys found) || not (is_node scene u))) [
        | inl skip ↦ search_loop-nodes fuel queue found ended h (sym (rw skip refl) ∙ e) v m
        | inr new ↦
            search_loop-nodes fuel (queue ++ push_all (model_outputs scene u) (n + 1))
              (insert u n found) ended (λ w k. known w k new (Bool-cases (u == w)))
              (sym (rw new refl) ∙ e) v m
      ]
    where
      known :
          (w : String)
          → elem w (keys (insert u n found)) ≡ true
          → (elem u (keys found) || not (is_node scene u)) ≡ false
          → ((u == w) ≡ true) ⊎ ((u == w) ≡ false)
          → is_node scene w ≡ true
      known w k new (inl same) =
          let node = ap (is_node scene) ((eq_iff u w).0 same) in ground (arith, node, new)
      known w k new (inr other) = h w (ground (arith, k, other, elem-keys-insert u w n found))

  Walk-found :
      (start : String) (ended : Dict String ℕ)
      → IsClosed [] ended
      → Pending [] ended start
      → ((v : String) → elem v (keys ended) ≡ true → is_node scene v ≡ true)
      → (v : String) (d : ℕ) → Walk scene start v d
      → is_node scene v ≡ true
      → elem v (keys ended) ≡ true
  unfolding IsClosed queued
  Walk-found start ended c s h v d here k = ground (arith, s k)
  Walk-found start ended c s h v d (step u w n walk node edge) k =
      ground (arith, c u v (Walk-found start ended c s h u n walk node) edge k)

  -- A search finds just the nodes to which walks from its start lead.
  pub reachable_distances_iff :
      (start : String) (distances : Dict String ℕ) (v : String)
      → reachable_distances scene start ≡ some distances
      → (elem v (keys distances) ≡ true)
        ↔ ((is_node scene v ≡ true) × ((d : ℕ) × Walk scene start v d))
  unfolding reachable_distances IsClosed queued keys
  reachable_distances_iff start distances v e =
      let nodes =
        search_loop-nodes (search_fuel scene) ((start, 0) ∷ []) [] distances
          (λ w k. absurd (ground (arith, k))) e in
      let (closed, begun) =
        search_loop-IsClosed (search_fuel scene) ((start, 0) ∷ []) [] distances start
          (λ u w m. absurd (ground (arith, m))) (λ k. ground (arith, beq_self start)) e in
      (
        (λ m. (
          nodes v m,
          let (d, f) = lookup-keys v distances m in
              (d, reachable_distances-Walk scene start distances v d e f),
        )),
        λ w. Walk-found start distances closed begun nodes v (w.1).0 (w.1).1 w.0,
      )
