-- ===== src/Tests/Sections.antt =====
-- Sections of services/api/nns/sections.
use neuralese.Prelude.{
  ℕ, ◌≤◌, ◌<◌, ◌≡◌, refl, false, Option, none, some, List, [], ◌∷◌, bytes_eq, bytes_beq,
  bytes_beq_iff, map, Bool, true, Dict, arith, string_eq, length,
}
use neuralese.Sections.Store.{Text, Bytes, SectionKey, tensor, State, Section, join_bar}
use neuralese.Python.Values.{Value, Fields, object, text, end, field, get?, truthy}
use neuralese.Topo.Graph.{fields_or_empty, pages_of, str, node_type, list_at, append_at}
use neuralese.Sections.Partition.{
  SectionPlan, dense, conv2d, lower, config_of, edges_to, edges_from, out_adj_of, in_adj_of,
  kind_named, layer_type, norm_layer_kind, add_blob, add_page, add_pages, graph_nodes_edges,
  param_kinds,
}
use neuralese.Sections.Chains.{
  kind_of, names, by_rank, params_of, is_start, next_of, cons_chain, walk, plan_for, walk_all,
  all_of, singles, orphans, with_orphans, chains_of, plans_for, partition_graph_into_section_plans,
}
use neuralese.Sections.Covers.{IsPartition}
use neuralese.Sections.Plans.{param_nodes, partition_graph_into_section_plans-IsPartition}
use neuralese.Sections.Match.{match_best_section}
use neuralese.Sections.Longest.{prefix_at, IsLongest, match_best_section-IsLongest}
use neuralese.Sections.Register.{Extra, Tables}
use neuralese.Sections.Shared.{
  Registration, IsAllShared, register_all, no_tables, register_all-IsAllShared,
}
use neuralese.Sections.Apply.{
  module_of, loaded, apply_after, apply_layers, apply_section_to_ctx_modules,
}
use neuralese.Sections.Layers.{Apart, IsApplied}
use neuralese.Sections.Applied.{apply_section_to_ctx_modules-IsApplied}

-- A module is its state, a tensor its shape.
abbrev Module : Type 0
Module = State (List ℕ)

abbrev state_dict : Module → Option (State (List ℕ))
state_dict m = some m

-- A module without a tensor refuses every state.
abbrev load_state_dict : Module → State (List ℕ) → Module × Bool
load_state_dict [] state = ([], false)
load_state_dict m state = (state, true)

abbrev shape : List ℕ → List ℕ
shape t = t

abbrev digest : SectionKey → Text
digest key = join_bar key.layer_kinds

abbrev save : Section (List ℕ) → Bytes
save sec = length sec.user_ids ∷ []

abbrev load : Bytes → Option (Section (List ℕ))
load binary = none

abbrev layer : Text
layer = b'd' ∷ []

abbrev weights : State (List ℕ)
weights = (b'w' ∷ b'e' ∷ b'i' ∷ b'g' ∷ b'h' ∷ b't' ∷ [], tensor (2 ∷ 3 ∷ [])) ∷ []

abbrev other_weights : State (List ℕ)
other_weights = (b'w' ∷ [], tensor (5 ∷ [])) ∷ []

abbrev plan : SectionPlan
plan = record { rough_layers = layer ∷ []; param_nids = "n" ∷ []; plan_id = [] }

abbrev extra : Extra Module
extra = record {
  local_dataset = false;
  module_key_by_nid = ("n", b'k' ∷ []) ∷ [];
  modules = some ((b'k' ∷ [], weights) ∷ []);
}

abbrev registration : Text → Registration Module
registration user = record {
  extra = extra;
  dataset_stamp = b's' ∷ [];
  now = 1;
  plans = plan ∷ [];
  user = user;
  acc = 900000;
}

abbrev both : List (Registration Module)
both = registration (b'u' ∷ []) ∷ registration (b'v' ∷ []) ∷ []

register_all-IsAllShared_example :
    IsAllShared save
      (register_all state_dict shape digest save both (no_tables state_dict shape digest save)).bins
register_all-IsAllShared_example = register_all-IsAllShared state_dict shape digest save both

abbrev tables : Tables (List ℕ)
tables = register_all state_dict shape digest save both (no_tables state_dict shape digest save)

match_best_section-IsLongest_example :
    ((sec : Section (List ℕ))
      → match_best_section shape digest load tables.bins tables.ram
          (b's' ∷ [])
          (layer ∷ [])
          (weights ∷ [])
        ≡ some sec
      → (n : ℕ) × IsLongest shape digest load tables.bins tables.ram
          (b's' ∷ [])
          (layer ∷ [])
          (weights ∷ [])
          1
          sec
          n)
    × (match_best_section shape digest load tables.bins tables.ram
            (b's' ∷ [])
            (layer ∷ [])
            (weights ∷ [])
          ≡ none
        → (m : ℕ) → 0 < m
        → m ≤ 1
        → prefix_at shape digest load tables.bins tables.ram
            (b's' ∷ [])
            (layer ∷ [])
            (weights ∷ [])
            m
          ≡ none)
match_best_section-IsLongest_example =
    match_best_section-IsLongest shape digest load tables.bins tables.ram (b's' ∷ []) (layer ∷ [])
      (weights ∷ []) refl

-- Nodes "n", "m" and "o", and the module of "m" does not load.
abbrev three : Extra Module
three = record {
  local_dataset = false;
  module_key_by_nid = ("n", b'k' ∷ []) ∷ ("m", b'l' ∷ []) ∷ ("o", b'o' ∷ []) ∷ [];
  modules = some ((b'k' ∷ [], weights) ∷ (b'l' ∷ [], []) ∷ (b'o' ∷ [], weights) ∷ []);
}

abbrev trained : Section (List ℕ)
trained = record {
  key = record {
    dataset_stamp = b's' ∷ [];
    rough = record { layers = layer ∷ layer ∷ layer ∷ [] };
    layer_param_shapes = [];
    layer_kinds = [];
    version = 1;
  };
  layer_states = other_weights ∷ other_weights ∷ other_weights ∷ [];
  refcount = 0;
  user_ids = [];
  max_acc = 0;
  created_ts = 1;
}

abbrev three_modules : Dict Text Module
three_modules = (b'k' ∷ [], weights) ∷ (b'l' ∷ [], []) ∷ (b'o' ∷ [], weights) ∷ []

k_l : bytes_beq (b'k' ∷ []) (b'l' ∷ []) ≡ false
unfolding bytes_beq
k_l = refl

k_o : bytes_beq (b'k' ∷ []) (b'o' ∷ []) ≡ false
unfolding bytes_beq
k_o = refl

l_o : bytes_beq (b'l' ∷ []) (b'o' ∷ []) ≡ false
unfolding bytes_beq
l_o = refl

three-Apart : Apart three.module_key_by_nid ("n" ∷ "m" ∷ "o" ∷ [])
three-Apart = (
  (
    (λ e h. ground (arith, (bytes_beq_iff (b'k' ∷ []) (b'l' ∷ [])).1 h, k_l)),
    ((λ e h. ground (arith, (bytes_beq_iff (b'k' ∷ []) (b'o' ∷ [])).1 h, k_o)), tt),
  ),
  (((λ e h. ground (arith, (bytes_beq_iff (b'l' ∷ []) (b'o' ∷ [])).1 h, l_o)), tt), (tt, tt)),
)

-- One layer is loaded, and the search stops at "m".
one_applied :
    (apply_section_to_ctx_modules load_state_dict three ("n" ∷ "m" ∷ "o" ∷ []) trained).0 ≡ 1
unfolding apply_section_to_ctx_modules apply_layers apply_after loaded module_of bytes_beq
one_applied = refl

apply_section_to_ctx_modules-IsApplied_example :
    (n : ℕ) × (after : Dict Text Module) × (apply_section_to_ctx_modules load_state_dict three
        ("n" ∷ "m" ∷ "o" ∷ [])
        trained
      ≡ (n, record three { modules = some after }))
    × IsApplied load_state_dict three.module_key_by_nid
        ("n" ∷ "m" ∷ "o" ∷ [])
        trained.layer_states
        three_modules
        n
        after
apply_section_to_ctx_modules-IsApplied_example =
    apply_section_to_ctx_modules-IsApplied load_state_dict three ("n" ∷ "m" ∷ "o" ∷ []) trained
      three_modules refl three-Apart

abbrev layer_blob : Text → Fields → Fields
layer_blob kind emit =
    field "type"
      (text (b'N' ∷ b'e' ∷ b'u' ∷ b'r' ∷ b'o' ∷ b'n' ∷ b'L' ∷ b'a' ∷ b'y' ∷ b'e' ∷ b'r' ∷ []))
      (field "config" (object (field "type" (text kind) end)) (field "emit" (object emit) end))

-- "b" feeds "a", and "c" stands alone.
abbrev layers_page : Fields
layers_page = field "a" (object (layer_blob dense end)) (
    field "b" (object (layer_blob conv2d (field "o" (object (field "a" (object end) end)) end)))
      (field "c" (object (layer_blob dense end)) end))

abbrev graph : Fields
graph = field "pages" (object (field "p" (object layers_page) end)) end

abbrev no_repr : Value → List ℕ
no_repr v = []

abbrev plan_hash : List Text → ℕ → Text
plan_hash layers size = size ∷ []

two_plans :
    partition_graph_into_section_plans no_repr plan_hash graph
    ≡ some (
        record { rough_layers = conv2d ∷ dense ∷ []; param_nids = "b" ∷ "a" ∷ []; plan_id = 2 ∷ [] }
        ∷ record { rough_layers = dense ∷ []; param_nids = "c" ∷ []; plan_id = 1 ∷ [] }
        ∷ [])
unfolding get? truthy fields_or_empty pages_of str node_type list_at append_at lower config_of
    edges_to edges_from out_adj_of in_adj_of kind_named layer_type norm_layer_kind add_blob add_page
    add_pages graph_nodes_edges param_kinds kind_of names by_rank params_of is_start next_of
    cons_chain walk plan_for walk_all all_of singles orphans with_orphans chains_of plans_for
    partition_graph_into_section_plans bytes_beq
two_plans = refl

partition_graph_into_section_plans-IsPartition_example :
    (plans : List SectionPlan) × (partition_graph_into_section_plans no_repr plan_hash graph
      ≡ some plans)
    × IsPartition (param_nodes no_repr graph) (map (λ found. found.param_nids) plans)
partition_graph_into_section_plans-IsPartition_example =
    partition_graph_into_section_plans-IsPartition no_repr plan_hash graph
