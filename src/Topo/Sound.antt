-- ===== src/Topo/Sound.antt =====
-- What the order of services/api/nns/topofuse/plan.py is: the nodes, each once, and sources first.
use neuralese.Prelude.{
  ℕ, ◌+◌, ◌-◌, ◌≡◌, refl, true, not, ◌&&◌, List, [], ◌∷◌, ◌++◌, String, string_eq, ◌==◌,
  if◌then◌else◌, elem, All, Dict, insert, lookup-insert, Bool-cases, inl, inr, arith,
}
use text.Mathlib.TextEquality.{eq_iff}
use neuralese.Topo.Graph.{Edge, InOut, list_at, append_at, degree_at, add_edge, build_in_out_from}
use neuralese.Topo.Sort.{remove, relax, default_degrees}

-- The edges into `v` from the nodes of a list.
unfoldable pub count_into : String → List String → List Edge → ℕ
count_into v from_nodes [] = 0
count_into v from_nodes (e ∷ edges) =
    (if e.tgt == v && elem e.src from_nodes then 1 else 0) + count_into v from_nodes edges

-- The times that `v` stands in a list.
unfoldable pub occurrences : String → List String → ℕ
occurrences v [] = 0
occurrences v (x ∷ xs) = (if x == v then 1 else 0) + occurrences v xs

pub elem-remove :
    (n u : String) (xs : List String) → elem n (remove u xs) ≡ (elem n xs && not (n == u))
unfolding remove
elem-remove n u [] = refl
elem-remove n u (x ∷ xs) = ground (arith, eq_iff x u, eq_iff x n, eq_iff n u, elem-remove n u xs)

degree_at-insert :
    (k j : String) (n : ℕ) (d : Dict String ℕ)
    → degree_at j (insert k n d) ≡ (if k == j then n else degree_at j d)
unfolding degree_at
degree_at-insert k j n d = ground (arith, lookup-insert k j n d)

pub degree_at-relax :
    (remaining targets : List String) (d : Dict String ℕ) (v : String)
    → degree_at v (relax remaining targets d)
      ≡ (if elem v remaining then degree_at v d - occurrences v targets else degree_at v d)
unfolding relax occurrences
degree_at-relax remaining [] d v = ground arith
degree_at-relax remaining (t ∷ targets) d v = elim (Bool-cases (elem t remaining)) [
  | inl e ↦ rw e (
      ground (
        arith,
        degree_at-relax remaining targets (insert t (degree_at t d - 1) d) v,
        degree_at-insert t v (degree_at t d - 1) d,
        eq_iff t v,
        e,
      ))
  | inr e ↦ rw e (ground (arith, degree_at-relax remaining targets d v, eq_iff t v, e))
]

-- Taking a node away takes the edges from it.
pub count_into-remove :
    (v u : String) (xs : List String) (edges : List Edge)
    → elem u xs ≡ true
    → count_into v xs edges ≡ count_into v (remove u xs) edges + count_into v (u ∷ []) edges
unfolding count_into
count_into-remove v u xs [] h = refl
count_into-remove v u xs (e ∷ edges) h = ground (
  arith,
  h,
  count_into-remove v u xs edges h,
  elem-remove e.src u xs,
  eq_iff e.src u,
  eq_iff u e.src,
)

occurrences-append :
    (v : String) (xs ys : List String)
    → occurrences v (xs ++ ys) ≡ occurrences v xs + occurrences v ys
unfolding occurrences
occurrences-append v [] ys = omega arith
occurrences-append v (x ∷ xs) ys = ground (arith, occurrences-append v xs ys)

occurrences-append_at :
    (u v k a : String) (d : Dict String (List String))
    → occurrences v (list_at u (append_at k a d))
      ≡ occurrences v (list_at u d) + (if k == u && a == v then 1 else 0)
unfolding list_at append_at occurrences
occurrences-append_at u v k a d = ground (
  arith,
  lookup-insert k u (list_at k d ++ a ∷ []) d,
  eq_iff k u,
  occurrences-append v (list_at k d) (a ∷ []),
)

pub out_adj-build :
    (u v : String) (edges : List Edge) (d : InOut)
    → occurrences v (list_at u (build_in_out_from d edges).out_adj)
      ≡ occurrences v (list_at u d.out_adj) + count_into v (u ∷ []) edges
unfolding build_in_out_from add_edge count_into
out_adj-build u v [] d = omega arith
out_adj-build u v (e ∷ edges) d = ground (
  arith,
  out_adj-build u v edges (add_edge e d),
  occurrences-append_at u v e.src e.tgt d.out_adj,
  eq_iff u e.src,
  eq_iff e.src u,
)

abbrev pub IsFrom : List String → Edge → Type 0
IsFrom nids e = elem e.src nids ≡ true

pub indeg-build :
    (v : String) (nids : List String) (edges : List Edge) (d : InOut)
    → All (IsFrom nids) edges
    → degree_at v (build_in_out_from d edges).indeg ≡ degree_at v d.indeg + count_into v nids edges
unfolding build_in_out_from add_edge count_into
indeg-build v nids [] d h = omega arith
indeg-build v nids (e ∷ edges) d h = ground (
  arith,
  indeg-build v nids edges (add_edge e d) (h.1),
  h.0,
  degree_at-insert e.tgt v (degree_at e.tgt d.indeg + 1) d.indeg,
  eq_iff e.tgt v,
)

pub degree_at-default :
    (nids : List String) (d : Dict String ℕ) (v : String)
    → degree_at v (default_degrees nids d) ≡ degree_at v d
unfolding default_degrees
degree_at-default [] d v = refl
degree_at-default (n ∷ nids) d v = ground (
  arith,
  degree_at-default nids (insert n (degree_at n d) d) v,
  degree_at-insert n v (degree_at n d) d,
  eq_iff n v,
)
