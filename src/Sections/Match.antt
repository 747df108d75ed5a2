-- ===== src/Sections/Match.antt =====
-- `match_best_section` of services/api/nns/sections/section_registry.py.
use neuralese.Prelude.{
  ℕ, zero, suc, ◌-◌, Option, none, some, List, [], bytes_eq, length, take, Dict, lookup,
}
use mathlib.Core.Option
use neuralese.Sections.Store.{
  Text, Bytes, RoughTopoKey, SectionKey, Bins, State, Section, topo_storage_key, build_section_key,
  get_persisted_section,
}

-- `RAM_SECTIONS`: topo -> exact key -> section
abbrev pub Ram : Type 0 → Type 0
Ram T = Dict Text (Dict Text (Section T))

unfoldable pub topo_bucket : {T : Type 0} → RoughTopoKey → Ram T → Dict Text (Section T)
topo_bucket topo ram = Option.get_or (lookup (topo_storage_key topo) ram) []

unfoldable pub rough_of : List Text → RoughTopoKey
rough_of layers = record { layers = layers }

-- `a or b`, where a section is true
unfoldable pub first_some : {A : Type 0} → Option A → Option A → Option A
first_some (some a) second = some a
first_some none second = second

module _ {T : Type 0} (shape : T → List ℕ) (digest : SectionKey → Text)
    (load : Bytes → Option (Section T)) (bins : Bins) (ram : Ram T) (dataset_stamp : Text) where
  -- The section under the key of some layers: the persisted one, else the one in memory.
  unfoldable pub section_at : List Text → List (State T) → Option (Section T)
  section_at layers states =
      let rough = rough_of layers in
      let key = build_section_key shape dataset_stamp layers states in
      first_some (get_persisted_section digest load rough key bins)
        (lookup (digest key) (topo_bucket rough ram))

  -- `for L in range(n, 0, -1)`
  unfoldable pub match_prefix : ℕ → List Text → List (State T) → Option (Section T)
  match_prefix zero layers states = none
  match_prefix (suc n) layers states =
      first_some (section_at (take (suc n) layers) (take (suc n) states))
        (match_prefix n layers states)

  unfoldable pub match_best_section : List Text → List (State T) → Option (Section T)
  match_best_section layers states =
      first_some (section_at layers states) (match_prefix (length layers - 1) layers states)
