-- ===== src/Sections/Apply.antt =====
-- `apply_section_to_ctx_modules` and `match_and_apply_reuse_after_build` of
-- services/api/nns/sections/section_registry.py. `load_state_dict` gives the module as it is then, and whether
-- it did not raise: one that raises may have loaded a part. No module stands under two keys.
use neuralese.Prelude.{
  is_empty, String, string_eq, ℕ, ◌+◌, Bool, true, false, ◌||◌, Option, none, some, List, [], ◌∷◌,
  bytes_eq, if◌then◌else◌, Dict, lookup, insert,
}
use neuralese.Sections.Store.{Text, Bytes, SectionKey, State, Section}
use neuralese.Sections.Partition.{SectionPlan}
use neuralese.Sections.Match.{match_best_section}
use neuralese.Sections.Register.{Extra, Tables, layer_states_of}

module _ {T M : Type 0} (load_state_dict : M → State T → M × Bool) where
  -- The module of a node with its key. An empty key counts as none.
  unfoldable pub module_of : Dict String Text → Dict Text M → String → Option (Text × M)
  module_of key_map modules nid = keyed (lookup nid key_map)
    where
      with_key : Text → Option M → Option (Text × M)
      with_key key none = none
      with_key key (some m) = some (key, m)

      keyed : Option Text → Option (Text × M)
      keyed (some (c ∷ key)) = with_key (c ∷ key) (lookup (c ∷ key) modules)
      keyed _ = none

  -- Whether a layer was loaded, and the modules after that.
  unfoldable pub loaded : Dict Text M → Option (Text × M) → State T → Bool × Dict Text M
  loaded modules none state = (false, modules)
  loaded modules (some found) state =
      let result = load_state_dict found.1 state in (result.1, insert found.0 result.0 modules)

  abbrev pub counted : ℕ × Dict Text M → ℕ × Dict Text M
  counted (applied, modules) = (applied + 1, modules)

  -- What follows the try to load a layer.
  unfoldable pub apply_after :
      (Dict Text M → ℕ × Dict Text M) → Bool × Dict Text M → ℕ × Dict Text M
  apply_after go (false, modules) = (0, modules)
  apply_after go (true, modules) = counted (go modules)

  -- The number of layers that were loaded, and the modules after that. It stops at the first that fails.
  unfoldable pub apply_layers :
      Dict String Text → List String → List (State T) → Dict Text M → ℕ × Dict Text M
  apply_layers key_map [] states modules = (0, modules)
  apply_layers key_map (nid ∷ nids) [] modules = (0, modules)
  apply_layers key_map (nid ∷ nids) (state ∷ states) modules =
      apply_after (apply_layers key_map nids states)
        (loaded modules (module_of key_map modules nid) state)

  unfoldable pub apply_section_to_ctx_modules : Extra M → List String → Section T → ℕ × Extra M
  apply_section_to_ctx_modules extra nids sec = on_modules extra.modules
    where
      result : ℕ × Dict Text M → ℕ × Extra M
      result (applied, modules) = (applied, record extra { modules = some modules })

      on_modules : Option (Dict Text M) → ℕ × Extra M
      on_modules none = (0, extra)
      on_modules (some modules) =
          result (apply_layers extra.module_key_by_nid nids sec.layer_states modules)

  module _ (state_dict : M → Option (State T)) (shape : T → List ℕ) (digest : SectionKey → Text)
      (load : Bytes → Option (Section T)) (s : Tables T) where
    unfoldable pub reuse_plan : Text → Extra M → SectionPlan → ℕ × Extra M
    reuse_plan stamp extra plan = with_states (layer_states_of state_dict extra plan.param_nids)
      where
        with_section : Option (Section T) → ℕ × Extra M
        with_section none = (0, extra)
        with_section (some sec) = apply_section_to_ctx_modules extra plan.param_nids sec

        with_states : Option (List (State T)) → ℕ × Extra M
        with_states (some (state ∷ states)) = with_section (
            match_best_section shape digest load s.bins s.ram stamp plan.rough_layers
              (state ∷ states))
        with_states _ = (0, extra)

    abbrev pub plus : ℕ → ℕ × Extra M → ℕ × Extra M
    plus applied (total, extra) = (applied + total, extra)

    unfoldable pub reuse_plans : Text → Extra M → List SectionPlan → ℕ × Extra M
    reuse_plans stamp extra [] = (0, extra)
    reuse_plans stamp extra (plan ∷ plans) =
        let first = reuse_plan stamp extra plan in plus first.0 (reuse_plans stamp first.1 plans)

    unfoldable pub match_and_apply_reuse_after_build :
        Text → Extra M → List SectionPlan → ℕ × Extra M
    match_and_apply_reuse_after_build stamp extra plans =
        let reused = reuse_plans stamp extra plans in
        if is_empty stamp || extra.local_dataset then (0, extra) else reused
