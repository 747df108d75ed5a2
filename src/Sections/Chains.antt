-- ===== src/Sections/Chains.antt =====
-- `partition_graph_into_section_plans` of services/api/nns/sections/partition.py, after the graph is read.
use neuralese.Prelude.{
  ℕ, zero, suc, Bool, true, not, Option, none, some, List, [], ◌∷◌, ◌++◌, map, String, string_eq,
  ◌==◌, if◌then◌else◌, eqb, filter, elem, length, Dict, lookup,
}
use mathlib.Core.Option
use neuralese.Python.Values.{Value, Fields}
use neuralese.Topo.Compare.{string_ord, nat_ord, list_ord, pair_ord, sorted}
use neuralese.Topo.Graph.{list_at}
use neuralese.Sections.Partition.{
  Text, SectionPlan, out_adj_of, in_adj_of, graph_nodes_edges, param_kinds,
}

-- `(param_kind[n], n)`, the key by which the starts are sorted
abbrev pub Ranked : Type 0
Ranked = Text × String

unfoldable pub kind_of : Dict String Text → String → Text
kind_of kinds nid = Option.get_or (lookup nid kinds) []

unfoldable pub names : Dict String Text → List String
names [] = []
names ((nid, kind) ∷ kinds) = nid ∷ names kinds

abbrev pub ranked : Dict String Text → String → Ranked
ranked kinds nid = (kind_of kinds nid, nid)

abbrev pub unranked : Ranked → String
unranked (kind, nid) = nid

unfoldable pub by_rank : Dict String Text → List String → List String
by_rank kinds nids = map unranked (sorted (map (ranked kinds) nids))

-- The nodes with parameters, their successors and predecessors among each other.
pub record Params : Type 0 where
  pub kinds : Dict String Text
  pub succ : String → List String
  pub pred : String → List String

unfoldable pub params_of : Dict String Text → List (String × String) → Params
params_of kinds edges = record {
  kinds = kinds;
  succ = λ nid. filter inside (list_at nid (out_adj_of edges []));
  pred = λ nid. filter inside (list_at nid (in_adj_of edges []));
}
  where
    inside : String → Bool
    inside v = elem v (names kinds)

unfoldable pub is_start : Params → String → Bool
is_start p nid = on_preds (p.pred nid)
  where
    on_preds : List String → Bool
    on_preds (only ∷ []) = not (eqb (length (p.succ only)) 1)
    on_preds _ = true

abbrev pub if_only_pred : String → String → List String → Option String
if_only_pred cur nxt (only ∷ []) = if only == cur then some nxt else none
if_only_pred cur nxt _ = none

abbrev pub if_only_succ : (String → List String) → String → List String → Option String
if_only_succ pred cur (nxt ∷ []) = if_only_pred cur nxt (pred nxt)
if_only_succ pred cur _ = none

-- The node that follows in a chain.
unfoldable pub next_of : Params → String → Option String
next_of p cur = if_only_succ p.pred cur (p.succ cur)

unfoldable pub cons_chain : String → Option (List String) → Option (List String)
cons_chain cur none = none
cons_chain cur (some chain) = some (cur ∷ chain)

abbrev pub go_on : (String → Option (List String)) → Option String → Option (List String)
go_on walk none = some []
go_on walk (some nxt) = walk nxt

-- The `while True` loop: the nodes that the chain adds, `none` out of fuel.
unfoldable pub walk : Params → ℕ → String → List String → Option (List String)
walk p zero cur visited = none
walk p (suc fuel) cur visited =
    let rest = cons_chain cur (go_on (λ nxt. walk p fuel nxt (cur ∷ visited)) (next_of p cur)) in
    if elem cur visited then some [] else rest

unfoldable pub plan_for : (List Text → ℕ → Text) → Dict String Text → List String → SectionPlan
plan_for plan_hash kinds chain =
    let layers = map (kind_of kinds) chain in
    record { rough_layers = layers; param_nids = chain; plan_id = plan_hash layers (length chain) }

abbrev pub keep_chain : List String → Option (List (List String)) → Option (List (List String))
keep_chain chain none = none
keep_chain chain (some chains) = some (chain ∷ chains)

abbrev pub walked :
    (List String → Option (List (List String)))
    → List String
    → Option (List String)
    → Option (List (List String))
walked rest visited none = none
walked rest visited (some []) = rest visited
walked rest visited (some (c ∷ chain)) = keep_chain (c ∷ chain) (rest ((c ∷ chain) ++ visited))

-- The loop over the starts: the chains that it finds.
unfoldable pub walk_all : Params → ℕ → List String → List String → Option (List (List String))
walk_all p fuel [] visited = some []
walk_all p fuel (s ∷ starts) visited =
    walked (walk_all p fuel starts) visited (walk p fuel s visited)

unfoldable pub all_of : List (List String) → List String
all_of [] = []
all_of (chain ∷ chains) = chain ++ all_of chains

unfoldable pub singles : List String → List (List String)
singles [] = []
singles (nid ∷ nids) = (nid ∷ []) ∷ singles nids

-- The nodes that no chain has, in order, each a chain of its own.
unfoldable pub orphans : Dict String Text → List (List String) → List (List String)
orphans kinds chains =
    singles (filter (λ nid. not (elem nid (all_of chains))) (sorted (names kinds)))

unfoldable pub with_orphans :
    Dict String Text → Option (List (List String)) → Option (List (List String))
with_orphans kinds none = none
with_orphans kinds (some chains) = some (chains ++ orphans kinds chains)

unfoldable pub chains_of : Dict String Text → List (String × String) → Option (List (List String))
chains_of kinds edges =
    let p = params_of kinds edges in
    with_orphans kinds (
      walk_all p (suc (length (names kinds))) (by_rank kinds (filter (is_start p) (names kinds)))
        [])

unfoldable pub plans_for :
    (List Text → ℕ → Text)
    → Dict String Text
    → Option (List (List String))
    → Option (List SectionPlan)
plans_for plan_hash kinds none = none
plans_for plan_hash kinds (some chains) = some (map (plan_for plan_hash kinds) chains)

unfoldable pub partition_graph_into_section_plans :
    (Value → List ℕ) → (List Text → ℕ → Text) → Fields → Option (List SectionPlan)
partition_graph_into_section_plans repr plan_hash graph =
    let nodes = graph_nodes_edges repr graph in
    let kinds = param_kinds repr nodes nodes.blob_by_nid in
    plans_for plan_hash kinds (chains_of kinds nodes.edges)
