-- ===== src/Summary/Walks.antt =====
-- The distances that `_reachable_distances` of services/backend/axon/graph_summary.py finds are lengths of
-- walks through the graph.
use neuralese.Prelude.{
  ℕ, zero, suc, ◌+◌, ◌≡◌, refl, sym, ◌∙◌, true, not, ◌||◌, some, Bool-cases, inl, inr, beq_self,
  List, [], ◌∷◌, ◌++◌, String, string_eq, ◌==◌, elem, All, All-append, Dict, lookup, insert,
  lookup-insert, arith,
}
use mathlib.Core.Path.{subst}
use package.text.Mathlib.TextEquality.{eq_iff}
use neuralese.Topo.Plan.{keys}
use neuralese.Summary.Reach.{
  Edge, Scene, Queue, is_node, model_outputs, tags_of, push_all, search_loop, search_fuel,
  reachable_distances,
}

-- A walk from a tag along edges of nodes, with its length.
pub data Walk (scene : Scene) (start : String) : String → ℕ → Type 0 where
  here : Walk scene start start 0
  step :
      (u v : String) (d : ℕ)
      → Walk scene start u d
      → is_node scene u ≡ true
      → elem v (tags_of (model_outputs scene u)) ≡ true
      → Walk scene start v (d + 1)

module _ (scene : Scene) (start : String) where
  -- Each entry of the queue, and each distance found, has its walk.
  AllWalks : Queue → Type 0
  AllWalks queue = All (λ entry. Walk scene start entry.0 entry.1) queue

  push_all-AllWalks :
      (u : String) (d : ℕ) (edges : List Edge)
      → Walk scene start u d
      → is_node scene u ≡ true
      → ((v : String)
          → elem v (tags_of edges) ≡ true
          → elem v (tags_of (model_outputs scene u)) ≡ true)
      → AllWalks (push_all edges (d + 1))
  unfolding push_all AllWalks
  push_all-AllWalks u d [] w n inside = tt
  push_all-AllWalks u d (e ∷ edges) w n inside = (
    step u e.to d w n (inside e.to (ground (arith, beq_self e.to))),
    push_all-AllWalks u d edges w n (λ v m. inside v (ground (arith, m))),
  )

  HasWalks : Dict String ℕ → Type 0
  HasWalks distances = (v : String) (d : ℕ) → lookup v distances ≡ some d → Walk scene start v d

  insert-HasWalks :
      (u : String) (n : ℕ) (distances : Dict String ℕ)
      → Walk scene start u n
      → HasWalks distances
      → HasWalks (insert u n distances)
  unfolding HasWalks
  insert-HasWalks u n distances w h v d e = elim (Bool-cases (u == v)) [
    | inl same ↦
        subst (λ k. Walk scene start v k)
          (some_inj n d (sym (lookup-insert u v n distances ∙ rw same refl) ∙ e))
          (subst (λ t. Walk scene start t n) ((eq_iff u v).0 same) w)
    | inr other ↦ h v d (sym (lookup-insert u v n distances ∙ rw other refl) ∙ e)
  ]
    where
      some_inj : (a b : ℕ) → some a ≡ some b → a ≡ b
      some_inj a b e = cc

  search_loop-HasWalks :
      (fuel : ℕ) (queue : Queue) (distances found : Dict String ℕ)
      → AllWalks queue
      → HasWalks distances
      → search_loop scene fuel queue distances ≡ some found
      → HasWalks found
  unfolding search_loop AllWalks HasWalks
  search_loop-HasWalks fuel [] distances found q h e = subst HasWalks (some_inj distances found e) h
    where
      some_inj : (a b : Dict String ℕ) → some a ≡ some b → a ≡ b
      some_inj a b e = cc
  search_loop-HasWalks zero (first ∷ queue) distances found q h e = absurd (ground (arith, e))
  search_loop-HasWalks (suc fuel) ((u, n) ∷ queue) distances found q h e =
      elim (Bool-cases (elem u (keys distances) || not (is_node scene u))) [
        | inl skip ↦ search_loop-HasWalks fuel queue distances found q.1 h (sym (rw skip refl) ∙ e)
        | inr new ↦
            search_loop-HasWalks fuel (queue ++ push_all (model_outputs scene u) (n + 1))
              (insert u n distances) found
              (All-append (λ entry. Walk scene start entry.0 entry.1) queue _ q.1
                (push_all-AllWalks u n (model_outputs scene u) q.0 (ground (arith, new))
                  (λ v m. m)))
              (insert-HasWalks u n distances q.0 h) (sym (rw new refl) ∙ e)
      ]

  -- A distance that is found is the length of a walk to the tag.
  pub reachable_distances-Walk :
      (distances : Dict String ℕ) (v : String) (d : ℕ)
      → reachable_distances scene start ≡ some distances
      → lookup v distances ≡ some d
      → Walk scene start v d
  unfolding reachable_distances AllWalks HasWalks
  reachable_distances-Walk distances v d e =
      search_loop-HasWalks (search_fuel scene) ((start, 0) ∷ []) [] distances (here, tt)
        (λ v d f. absurd (ground (arith, f))) e v d
