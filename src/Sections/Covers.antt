-- ===== src/Sections/Covers.antt =====
-- The plans of services/api/nns/sections/partition.py have each node with parameters once.
use neuralese.Prelude.{
  unvisited, unvisited-lt, unvisited-lt_suc, ℕ, zero, suc, ◌<◌, ◌≡◌, refl, sym, ap, ◌∙◌, true, not,
  ◌&&◌, Option, none, some, Bool-cases, inl, inr, List, [], ◌∷◌, ◌++◌, String, string_eq, filter,
  elem, length, Distinct, elem-filter, filter-Distinct, Dict, arith, beq_self,
}
use mathlib.Core.Path.{subst}
use package.text.Mathlib.TextEquality.{eq_iff}
use neuralese.Topo.Compare.{string_ord, sorted}
use neuralese.Topo.Graph.{list_at}
use neuralese.Sections.Partition.{Text, out_adj_of}
use neuralese.Sections.Sorted.{elem-sorted, sorted-Distinct, elem-by_rank}
use neuralese.Sections.Chains.{
  Params, if_only_pred, if_only_succ, names, params_of, next_of, go_on, walk, walked, walk_all,
  all_of, singles, orphans, with_orphans, chains_of, is_start, by_rank,
}
use neuralese.Sections.Fresh.{
  elem-append, Distinct-append, IsFresh, IsFresh-append, Found, none-Found, cons_chain-Found,
}

module _ (p : Params) (nids : List String)
    (stays : (cur nxt : String) → next_of p cur ≡ some nxt → elem nxt nids ≡ true) where
  go_on-Found :
      (cur : String) (visited : List String) (go : String → Option (List String))
      → ((nxt : String) → elem nxt nids ≡ true → Found nids visited (go nxt))
      → (o : Option String) → next_of p cur ≡ o
      → Found nids visited (go_on go o)
  go_on-Found cur visited go h none e = none-Found nids visited
  go_on-Found cur visited go h (some nxt) e = h nxt (stays cur nxt e)

  -- With enough fuel a chain ends, and it has fresh nodes only.
  walk-Found :
      (fuel : ℕ) (cur : String) (visited : List String)
      → unvisited nids visited < fuel
      → elem cur nids ≡ true
      → Found nids visited (walk p fuel cur visited)
  unfolding walk
  walk-Found zero cur visited f m = absurd (omega (arith, f))
  walk-Found (suc fuel) cur visited f m = elim (Bool-cases (elem cur visited)) [
    | inl seen ↦ rw seen (none-Found nids visited)
    | inr new ↦ rw new (
        cons_chain-Found nids visited cur _ m new (
          go_on-Found cur (cur ∷ visited) (λ nxt. walk p fuel nxt (cur ∷ visited))
            (λ nxt k.
              walk-Found fuel nxt (cur ∷ visited)
                (omega (arith, f, unvisited-lt nids visited cur m new)) k)
            (next_of p cur) refl))
  ]

  -- The chains of the starts together.
  abbrev AllFound : List String → Option (List (List String)) → Type 0
  AllFound visited o =
      (chains : List (List String)) × (o ≡ some chains) × IsFresh nids visited (all_of chains)

  walked-AllFound :
      (rest : List String → Option (List (List String))) (visited : List String)
      (o : Option (List String))
      → Found nids visited o
      → ((chain : List String) → AllFound (chain ++ visited) (rest (chain ++ visited)))
      → AllFound visited (walked rest visited o)
  unfolding all_of
  walked-AllFound rest visited o (chain, e, h) k = rw e (with_chain chain h)
    where
      with_chain :
          (chain : List String)
          → IsFresh nids visited chain
          → AllFound visited (walked rest visited (some chain))
      with_chain [] h = k []
      with_chain (c ∷ chain) h =
          let (chains, e1, h1) = k (c ∷ chain) in
          (
            (c ∷ chain) ∷ chains,
            rw e1 refl,
            IsFresh-append (c ∷ chain) (all_of chains) visited h h1,
          )

  walk_all-AllFound :
      (starts visited : List String)
      → ((n : String) → elem n starts ≡ true → elem n nids ≡ true)
      → AllFound visited (walk_all p (suc (length nids)) starts visited)
  unfolding walk_all all_of
  walk_all-AllFound [] visited m = (
    [],
    refl,
    record {
      distinct = tt;
      inside = λ n e. absurd (ground (arith, e));
      apart = λ n e. absurd (ground (arith, e));
    },
  )
  walk_all-AllFound (s ∷ starts) visited m =
      walked-AllFound (walk_all p (suc (length nids)) starts) visited _
        (walk-Found (suc (length nids)) s visited (unvisited-lt_suc nids visited)
          (m s (ground (arith, beq_self s))))
        (λ chain. walk_all-AllFound starts (chain ++ visited) (λ n e. m n (ground (arith, e))))

if_only_succ-elem :
    (pred : String → List String) (cur nxt : String) (succs : List String)
    → if_only_succ pred cur succs ≡ some nxt
    → elem nxt succs ≡ true
if_only_succ-elem pred cur nxt [] e = absurd (ground (arith, e))
if_only_succ-elem pred cur nxt (x ∷ y ∷ succs) e = absurd (ground (arith, e))
if_only_succ-elem pred cur nxt (x ∷ []) e = at (pred x) e
  where
    at : (preds : List String) → if_only_pred cur x preds ≡ some nxt → elem nxt (x ∷ []) ≡ true
    at [] e = absurd (ground (arith, e))
    at (y ∷ z ∷ preds) e = absurd (ground (arith, e))
    at (y ∷ []) e = ground (arith, e, eq_iff x nxt)

params_of-stays :
    (kinds : Dict String Text) (edges : List (String × String)) (cur nxt : String)
    → next_of (params_of kinds edges) cur ≡ some nxt
    → elem nxt (names kinds) ≡ true
unfolding next_of params_of
params_of-stays kinds edges cur nxt e = ground (
  arith,
  if_only_succ-elem (params_of kinds edges).pred cur nxt ((params_of kinds edges).succ cur) e,
  elem-filter (λ v. elem v (names kinds)) nxt (list_at cur (out_adj_of edges [])),
)

all_of-append : (xs ys : List (List String)) → all_of (xs ++ ys) ≡ all_of xs ++ all_of ys
unfolding all_of
all_of-append [] ys = refl
all_of-append (x ∷ xs) ys =
    ap (λ z. x ++ z) (all_of-append xs ys) ∙ sym (append_assoc x (all_of xs) (all_of ys))
  where
    append_assoc : (xs ys zs : List String) → (xs ++ ys) ++ zs ≡ xs ++ (ys ++ zs)
    append_assoc [] ys zs = refl
    append_assoc (x ∷ xs) ys zs = ap (◌∷◌ x) (append_assoc xs ys zs)

all_of-singles : (nids : List String) → all_of (singles nids) ≡ nids
unfolding all_of singles
all_of-singles [] = refl
all_of-singles (x ∷ nids) = ap (◌∷◌ x) (all_of-singles nids)

-- The chains have each of some nodes, and each once.
pub record IsPartition (nids : List String) (chains : List (List String)) : Type 0 where
  pub distinct : Distinct (all_of chains)
  pub members : (n : String) → elem n (all_of chains) ≡ elem n nids

with_orphans-IsPartition :
    (kinds : Dict String Text) (chains : List (List String))
    → Distinct (names kinds)
    → IsFresh (names kinds) [] (all_of chains)
    → IsPartition (names kinds) (chains ++ orphans kinds chains)
unfolding orphans
with_orphans-IsPartition kinds chains d h = record {
  distinct = subst Distinct (sym flat) (
      Distinct-append (all_of chains) rest h.distinct
        (filter-Distinct (λ nid. not (elem nid (all_of chains))) (sorted (names kinds))
          (sorted-Distinct (names kinds) d))
        (λ n e. ground (arith, e, of_rest n)));
  members = λ n.
      ap (elem n) flat
      ∙ ground (
        arith,
        elem-append n (all_of chains) rest,
        of_rest n,
        elem-sorted n (names kinds),
        h.inside n,
      );
}
  where
    rest : List String
    rest = filter (λ nid. not (elem nid (all_of chains))) (sorted (names kinds))

    of_rest :
        (n : String) → elem n rest ≡ (elem n (sorted (names kinds)) && not (elem n (all_of chains)))
    of_rest n = elem-filter (λ nid. not (elem nid (all_of chains))) n (sorted (names kinds))

    flat : all_of (chains ++ singles rest) ≡ all_of chains ++ rest
    flat = all_of-append chains (singles rest) ∙ ap (λ z. all_of chains ++ z) (all_of-singles rest)

-- The chains are found.
pub chains_of-IsPartition :
    (kinds : Dict String Text) (edges : List (String × String))
    → Distinct (names kinds)
    → (chains : List (List String)) × (chains_of kinds edges ≡ some chains)
      × IsPartition (names kinds) chains
unfolding chains_of with_orphans
chains_of-IsPartition kinds edges d =
    let p = params_of kinds edges in
    let starts = by_rank kinds (filter (is_start p) (names kinds)) in
    let (chains, e, h) =
      walk_all-AllFound p (names kinds) (params_of-stays kinds edges) starts [] (λ n m. ground (
        arith,
        m,
        elem-by_rank kinds n (filter (is_start p) (names kinds)),
        elem-filter (is_start p) n (names kinds),
      )) in
    (chains ++ orphans kinds chains, rw e refl, with_orphans-IsPartition kinds chains d h)
