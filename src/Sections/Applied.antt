-- ===== src/Sections/Applied.antt =====
-- What `apply_section_to_ctx_modules` of services/api/nns/sections/section_registry.py does to the modules.
use neuralese.Prelude.{
  is_empty, String, string_eq, ℕ, ◌≡◌, refl, ◌⊎◌, inl, inr, Bool, true, false, none, some, List, [],
  ◌∷◌, bytes_eq, Dict, lookup, insert, arith,
}
use mathlib.Core.Path.{subst}
use neuralese.Sections.Store.{Text, State, Section}
use neuralese.Sections.Register.{Extra}
use neuralese.Sections.Apply.{loaded, apply_after, apply_layers, apply_section_to_ctx_modules}
use neuralese.Sections.Layers.{
  key_of, Apart, Stops, IsApplied, module_of-cases, insert_other, insert_same, stopped-IsApplied,
  loaded-IsApplied,
}

module _ {T M : Type 0} (load_state_dict : M → State T → M × Bool)
    (key_map : Dict String Text) where
  apply_layers-IsApplied :
      (nids : List String) (states : List (State T)) (before : Dict Text M)
      → Apart key_map nids
      → IsApplied load_state_dict key_map nids states before
          (apply_layers load_state_dict key_map nids states before).0
          (apply_layers load_state_dict key_map nids states before).1
  unfolding apply_layers loaded apply_after
  apply_layers-IsApplied [] states before a = record {
    within = (omega arith, omega arith);
    each = λ i nid state h e f. absurd (omega (arith, h));
    stops = λ nid state e f. absurd (ground (arith, e));
    others = λ key h. refl;
  }
  apply_layers-IsApplied (nid ∷ nids) [] before a = record {
    within = (omega arith, omega arith);
    each = λ i other state h e f. absurd (omega (arith, h));
    stops = λ other state e f. absurd (ground (arith, f));
    others = λ key h. refl;
  }
  apply_layers-IsApplied (nid ∷ nids) (state ∷ states) before a =
      elim (module_of-cases load_state_dict key_map before nid) [
        | inl (e, missing) ↦ rw e (
            stopped-IsApplied load_state_dict key_map nid nids state states before before
              (absent missing) (λ key n. refl))
        | inr (m, e, named, found) ↦ rw e (
            tried (λ mid. apply_layers-IsApplied nids states mid a.1) m named found
              (load_state_dict m state).0 (load_state_dict m state).1 refl)
      ]
    where
      absent :
          (is_empty (key_of key_map nid) ≡ true) ⊎ (lookup (key_of key_map nid) before ≡ none)
          → Stops load_state_dict key_map before before nid state
      absent (inl e) = inl e
      absent (inr e) = inr (inl e)

      step : Bool → M → ℕ × Dict Text M
      step b next =
          apply_after load_state_dict (apply_layers load_state_dict key_map nids states)
            (b, insert (key_of key_map nid) next before)

      tried :
          ((mid : Dict Text M)
            → IsApplied load_state_dict key_map nids states mid
                (apply_layers load_state_dict key_map nids states mid).0
                (apply_layers load_state_dict key_map nids states mid).1)
          → (m : M) → is_empty (key_of key_map nid) ≡ false
          → lookup (key_of key_map nid) before ≡ some m
          → (next : M) (b : Bool) → load_state_dict m state ≡ (next, b)
          → IsApplied load_state_dict key_map
              (nid ∷ nids)
              (state ∷ states)
              before
              (step b next).0
              (step b next).1
      tried rest m named found next false e =
          stopped-IsApplied load_state_dict key_map nid nids state states before
            (insert (key_of key_map nid) next before)
            (inr (
              inr (
                m,
                next,
                found,
                e,
                insert_same load_state_dict key_map (key_of key_map nid) next before,
              )))
            (λ key n. insert_other load_state_dict key_map (key_of key_map nid) key next before n)
      tried rest m named found next true e =
          subst
            (λ (k : ℕ).
              IsApplied load_state_dict key_map (nid ∷ nids) (state ∷ states) before k
                (step true next).1)
            (omega arith)
            (loaded-IsApplied load_state_dict key_map nid nids state states before m next named
              found e a.0 _ _ (rest (insert (key_of key_map nid) next before)))

-- Applying a section to the nodes of a plan, where no node has the module of another, loads the states
-- of the section into the modules of the first nodes, as many as it reports, and stops at the next node,
-- if there is one with a state, because that has no module or because loading raises. The modules of
-- no other nodes change, and nothing else in the context does.
pub apply_section_to_ctx_modules-IsApplied :
    {T M : Type 0} (load_state_dict : M → State T → M × Bool) (extra : Extra M) (nids : List String)
    (sec : Section T) (modules : Dict Text M)
    → extra.modules ≡ some modules
    → Apart extra.module_key_by_nid nids
    → (n : ℕ) × (after : Dict Text M) × (apply_section_to_ctx_modules load_state_dict extra nids sec
        ≡ (n, record extra { modules = some after }))
      × IsApplied load_state_dict extra.module_key_by_nid nids sec.layer_states modules n after
unfolding apply_section_to_ctx_modules
apply_section_to_ctx_modules-IsApplied load_state_dict extra nids sec modules e a = (
  _,
  _,
  rw e refl,
  apply_layers-IsApplied load_state_dict extra.module_key_by_nid nids sec.layer_states modules a,
)
