-- ===== src/Sections/Register.antt =====
-- `build_section_from_ctx`, `register_built_sections`, `apply_section_to_ctx_modules` and
-- `match_and_apply_reuse_after_build` of services/api/nns/sections/section_registry.py. `M` is the type of
-- modules; `state_dict` is `none` for one that has no such method, `load_state_dict` for one that raises.
use neuralese.Prelude.{
  String, string_eq, ℕ, Bool, ◌&&◌, Option, none, some, List, [], ◌∷◌, bytes_eq, if◌then◌else◌, leb,
  length, Dict, lookup, insert,
}
use mathlib.Core.Option
use neuralese.Sections.Store.{
  Text, Bytes, SectionKey, Bins, State, Section, topo_storage_key, bump, build_section_key,
  persist_section,
}
use neuralese.Sections.Partition.{SectionPlan}
use neuralese.Sections.Match.{Ram, topo_bucket}

-- `ctx.extra`: `_sections_local_dataset`, `_module_key_by_nid` and `_modules_ref`
pub record Extra (M : Type 0) : Type 0 where
  pub local_dataset : Bool
  pub module_key_by_nid : Dict String Text
  pub modules : Option (Dict Text M)

-- The tables in memory and on disk.
pub record Tables (T : Type 0) : Type 0 where
  pub ram : Ram T
  pub bins : Bins

module _ {T M : Type 0} (state_dict : M → Option (State T)) where
  -- The state of the module of a node, where there is one. An empty key counts as none.
  unfoldable pub state_of : Dict String Text → Dict Text M → String → Option (State T)
  state_of key_map modules nid = keyed (lookup nid key_map)
    where
      from : Option M → Option (State T)
      from none = none
      from (some m) = state_dict m

      keyed : Option Text → Option (State T)
      keyed (some (c ∷ key)) = from (lookup (c ∷ key) modules)
      keyed _ = none

  unfoldable pub cons_state : Option (State T) → Option (List (State T)) → Option (List (State T))
  cons_state (some state) (some states) = some (state ∷ states)
  cons_state _ _ = none

  unfoldable pub states_of : Dict String Text → Dict Text M → List String → Option (List (State T))
  states_of key_map modules [] = some []
  states_of key_map modules (nid ∷ nids) =
      cons_state (state_of key_map modules nid) (states_of key_map modules nids)

  unfoldable pub layer_states_of : Extra M → List String → Option (List (State T))
  layer_states_of extra nids = elim extra.modules [
    | none ↦ none
    | some modules ↦ states_of extra.module_key_by_nid modules nids
  ]

  module _ (shape : T → List ℕ) (digest : SectionKey → Text) where
    unfoldable pub new_section : SectionKey → List (State T) → ℕ → Section T
    new_section key layer_states now = record {
      key = key;
      layer_states = layer_states;
      refcount = 0;
      user_ids = [];
      max_acc = 0;
      created_ts = now;
    }

    unfoldable pub build_section_from_ctx : Extra M → SectionPlan → Text → ℕ → Option (Section T)
    build_section_from_ctx extra plan dataset_stamp now =
        built (layer_states_of extra plan.param_nids)
      where
        built : Option (List (State T)) → Option (Section T)
        built none = none
        built (some states) = some (
            new_section (build_section_key shape dataset_stamp plan.rough_layers states) states now)

    -- The section under the key, or the new one.
    unfoldable pub existing_or : Section T → Ram T → Section T
    existing_or sec ram =
        Option.get_or (lookup (digest sec.key) (topo_bucket sec.key.rough ram)) sec

    unfoldable pub put_section : Text → Text → Section T → Ram T → Ram T
    put_section topo key sec ram =
        insert topo (insert key sec (Option.get_or (lookup topo ram) [])) ram

    -- `len(existing.user_ids) >= 2 and existing.max_acc >= 0.80`
    unfoldable pub is_shared : Section T → Bool
    is_shared sec = leb 2 (length sec.user_ids) && leb 800000 sec.max_acc

    module _ (save : Section T → Bytes) (user : Text) (acc : ℕ) where
      unfoldable pub register_section : Section T → Tables T → Tables T
      register_section sec s =
          let bumped = bump user acc (existing_or sec s.ram) in
          record {
            ram = put_section (topo_storage_key sec.key.rough) (digest sec.key) bumped s.ram;
            bins = if is_shared bumped then persist_section digest save bumped s.bins else s.bins;
          }

      unfoldable pub register_plans : Extra M → Text → ℕ → List SectionPlan → Tables T → Tables T
      register_plans extra dataset_stamp now [] s = s
      register_plans extra dataset_stamp now (plan ∷ plans) s =
          register_plans extra dataset_stamp now plans
            (stored (build_section_from_ctx extra plan dataset_stamp now))
        where
          stored : Option (Section T) → Tables T
          stored none = s
          stored (some sec) = register_section sec s

      unfoldable pub register_built_sections :
          Extra M → Text → ℕ → List SectionPlan → Tables T → Tables T
      register_built_sections extra dataset_stamp now plans s =
          if extra.local_dataset then s else register_plans extra dataset_stamp now plans s
