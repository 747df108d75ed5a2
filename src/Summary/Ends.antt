-- ===== src/Summary/Ends.antt =====
-- The searches and the rendering of services/backend/axon/graph_summary.py end.
use neuralese.Prelude.{
  ℕ, zero, suc, ◌+◌, ◌≤◌, ◌<◌, ◌≡◌, refl, ap, true, false, not, ◌||◌, Option, none, some,
  Bool-cases, inl, inr, List, [], ◌∷◌, ◌++◌, String, string_eq, ◌==◌, if◌then◌else◌, elem, length,
  length-append, unvisited, unvisited-lt, unvisited-lt_suc, Dict, insert, arith, either_branch,
}
use package.text.Mathlib.TextEquality.{eq_iff}
use neuralese.Topo.Plan.{keys}
use neuralese.Topo.Extract.{elem-keys-insert}
use neuralese.Summary.Reach.{
  Edge, Scene, Queue, is_node, model_outputs, push_all, search_loop, edge_count, search_fuel,
  reachable_distances, all_reachable, best_join, first_common_join,
}
use neuralese.Summary.Render.{
  Rendered, with_tail, or_direct, render_branches, split_only, split_then, split_at, split_text,
  expand, is_stop, see, render_flow_until, render_flow,
}

abbrev Ends {ℓ} : {A : Type ℓ} → Option A → Type ℓ
Ends {A = A} o = (a : A) × (o ≡ some a)

-- The edges from the tags that the search has not visited.
edges_left : Scene → List String → Dict String ℕ → ℕ
edges_left scene [] distances = 0
edges_left scene (tag ∷ tags) distances =
    (if elem tag (keys distances) then 0 else length (model_outputs scene tag))
    + edges_left scene tags distances

edges_left-le :
    (scene : Scene) (tags : List String) (current : String) (d : ℕ) (distances : Dict String ℕ)
    → edges_left scene tags (insert current d distances) ≤ edges_left scene tags distances
unfolding edges_left
edges_left-le scene [] current d distances = omega arith
edges_left-le scene (tag ∷ tags) current d distances =
    ground (
      arith,
      edges_left-le scene tags current d distances,
      elem-keys-insert current tag d distances,
    )

edges_left-insert :
    (scene : Scene) (tags : List String) (current : String) (d : ℕ) (distances : Dict String ℕ)
    → elem current tags ≡ true
    → elem current (keys distances) ≡ false
    → edges_left scene tags (insert current d distances) + length (model_outputs scene current)
      ≤ edges_left scene tags distances
unfolding edges_left
edges_left-insert scene [] current d distances m f = absurd (ground (arith, m))
edges_left-insert scene (tag ∷ tags) current d distances m f = elim (Bool-cases (tag == current)) [
  | inl same ↦
      let at = (eq_iff tag current).0 same in
      let outs = ap (λ t. length (model_outputs scene t)) at in
      let fresh = ap (λ t. elem t (keys distances)) at in
      ground (
        arith,
        outs,
        fresh,
        f,
        eq_iff current tag,
        at,
        elem-keys-insert current tag d distances,
        edges_left-le scene tags current d distances,
      )
  | inr other ↦ ground (
    arith,
    m,
    f,
    other,
    edges_left-insert scene tags current d distances,
    elem-keys-insert current tag d distances,
    eq_iff tag current,
    eq_iff current tag,
  )
]

length-push_all : (edges : List Edge) (d : ℕ) → length (push_all edges d) ≡ length edges
unfolding push_all
length-push_all [] d = refl
length-push_all (e ∷ edges) d = omega (arith, length-push_all edges d)

search_loop-Ends :
    (scene : Scene) (fuel : ℕ) (queue : Queue) (distances : Dict String ℕ)
    → length queue + edges_left scene (keys scene.types) distances ≤ fuel
    → Ends (search_loop scene fuel queue distances)
unfolding search_loop is_node
search_loop-Ends scene fuel [] distances h = (distances, refl)
search_loop-Ends scene zero (first ∷ queue) distances h = absurd (omega (arith, h))
search_loop-Ends scene (suc fuel) ((current, distance) ∷ queue) distances h =
    elim (Bool-cases (elem current (keys distances) || not (elem current (keys scene.types)))) [
      | inl skip ↦ rw skip (search_loop-Ends scene fuel queue distances (omega (arith, h)))
      | inr new ↦ rw new (
          search_loop-Ends scene fuel
            (queue ++ push_all (model_outputs scene current) (distance + 1))
            (insert current distance distances)
            (omega (
              arith,
              h,
              length-append queue (push_all (model_outputs scene current) (distance + 1)),
              length-push_all (model_outputs scene current) (distance + 1),
              edges_left-insert scene (keys scene.types) current distance distances
                  (ground (arith, new)) (ground (arith, new)),
            )))
    ]

edges_left-count :
    (scene : Scene) (tags : List String) → edges_left scene tags [] ≡ edge_count scene tags
unfolding edges_left edge_count keys
edges_left-count scene [] = refl
edges_left-count scene (tag ∷ tags) = omega (arith, edges_left-count scene tags)

-- A search ends.
reachable_distances-Ends : (scene : Scene) (start : String) → Ends (reachable_distances scene start)
unfolding reachable_distances search_fuel
reachable_distances-Ends scene start =
    search_loop-Ends scene (suc (edge_count scene (keys scene.types))) ((start, 0) ∷ []) []
      (omega (arith, edges_left-count scene (keys scene.types)))

all_reachable-Ends : (scene : Scene) (starts : List String) → Ends (all_reachable scene starts)
unfolding all_reachable
all_reachable-Ends scene [] = ([], refl)
all_reachable-Ends scene (start ∷ starts) =
    let (d, e) = reachable_distances-Ends scene start in
    let (ds, es) = all_reachable-Ends scene starts in (d ∷ ds, rw (e, es) refl)

first_common_join-Ends :
    (scene : Scene) (starts : List String) → Ends (first_common_join scene starts)
unfolding first_common_join
first_common_join-Ends scene [] = (none, refl)
first_common_join-Ends scene (start ∷ []) = (none, refl)
first_common_join-Ends scene (start ∷ other ∷ starts) =
    let (ds, e) = all_reachable-Ends scene (start ∷ other ∷ starts) in (best_join ds, rw e refl)

with_tail-Ends : (base : List ℕ) (o : Rendered) → Ends o → Ends (with_tail base o)
unfolding with_tail
with_tail-Ends base o (([], seen), e) = ((base, seen), rw e refl)
with_tail-Ends base o ((c ∷ tail, seen), e) = rw e (_, refl)

render_branches-Ends :
    (go : String → List String → Rendered) (edges : List Edge) (seen : List String)
    → ((tag : String) (s : List String) → Ends (go tag s))
    → Ends (render_branches go edges seen)
unfolding render_branches
render_branches-Ends go [] seen h = (([], seen), refl)
render_branches-Ends go (x ∷ edges) seen h =
    let ((branch, after), e) = h x.to seen in
    let ((branches, last), es) = render_branches-Ends go edges after h in
    ((or_direct branch ∷ branches, last), rw e (rw es refl))

split_at-Ends :
    (go : String → Option String → List String → Rendered) (base : List ℕ) (stop : Option String)
    (edges : List Edge) (seen : List String) (o : Option (Option String))
    → ((tag : String) (until : Option String) (s : List String) → Ends (go tag until s))
    → Ends o
    → Ends (split_at go base stop edges seen o)
unfolding split_at
split_at-Ends go base stop edges seen o h (found, e) = rw e (by_join found)
  where
    all_branches : Ends (split_only base (render_branches (λ tag s. go tag stop s) edges seen))
    all_branches =
        let (r, e1) =
          render_branches-Ends (λ tag s. go tag stop s) edges seen (λ tag s. h tag stop s) in
        rw e1 (_, refl)

    to_join :
        (join : String)
        → Ends (
            split_then base
              (λ s. go join stop s)
              (render_branches (λ tag s. go tag (some join) s) edges seen))
    to_join join =
        let ((branches, after), e1) =
          render_branches-Ends (λ tag s. go tag (some join) s) edges seen
            (λ tag s. h tag (some join) s) in
        rw e1 (with_tail-Ends (split_text base branches) (go join stop after) (h join stop after))

    by_join : (found : Option String) → Ends (split_at go base stop edges seen (some found))
    by_join none = all_branches
    by_join (some join) = either_branch Ends (join == "") all_branches (to_join join)

expand-Ends :
    (scene : Scene) (go : String → Option String → List String → Rendered) (base : List ℕ)
    (stop : Option String) (seen : List String) (edges : List Edge)
    → ((tag : String) (until : Option String) (s : List String) → Ends (go tag until s))
    → Ends (expand scene go base stop seen edges)
unfolding expand
expand-Ends scene go base stop seen [] h = ((base, seen), refl)
expand-Ends scene go base stop seen (e ∷ []) h =
    with_tail-Ends base (go e.to stop seen) (h e.to stop seen)
expand-Ends scene go base stop seen (e ∷ f ∷ edges) h =
    split_at-Ends go base stop (e ∷ f ∷ edges) seen _ h (first_common_join-Ends scene _)

module _ (scene : Scene) (format : String → List ℕ) (activation_source : Dict String String) where
  -- The recursion goes only as deep as there are nodes off the path from the root.
  render_flow_until-Ends :
      (fuel : ℕ) (current : String) (stop : Option String) (active seen : List String)
      → unvisited (keys scene.types) active < fuel
      → Ends (render_flow_until scene format activation_source fuel current stop active seen)
  unfolding render_flow_until is_node
  render_flow_until-Ends zero current stop active seen h = absurd (omega (arith, h))
  render_flow_until-Ends (suc fuel) current stop active seen h =
      elim (Bool-cases
        (current == "" || is_stop current stop || not (elem current (keys scene.types)))) [
          | inl blocked ↦ rw blocked (([], seen), refl)
          | inr open_node ↦ rw open_node (elim (Bool-cases (elem current active)) [
            | inl again ↦ rw again (_, refl)
            | inr new ↦ rw new (
                expand-Ends scene _ (format current) stop
                  (see scene format activation_source current seen) (model_outputs scene current)
                  (λ tag until s. render_flow_until-Ends fuel tag until (current ∷ active) s (
                    omega (
                      arith,
                      h,
                      unvisited-lt (keys scene.types) active current (is_known open_node) new,
                    ))))
          ])
        ]
    where
      is_known :
          (current == "" || is_stop current stop || not (elem current (keys scene.types))) ≡ false
          → elem current (keys scene.types) ≡ true
      is_known e = ground (arith, e)

  -- The rendering of a flow ends, also where the graph has cycles.
  pub render_flow-Ends :
      (root : String) (seen : List String)
      → (rendered : List ℕ × List String) × (render_flow scene format activation_source root seen
          ≡ some rendered)
  unfolding render_flow
  render_flow-Ends root seen =
      render_flow_until-Ends (suc (length (keys scene.types))) root none [] seen
        (unvisited-lt_suc (keys scene.types) [])
