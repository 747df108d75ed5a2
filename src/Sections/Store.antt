-- ===== src/Sections/Store.antt =====
-- Keys and sections of services/api/nns/sections/section_registry.py, and the table of
-- services/api/nns/sections/module_cache.py. A text is a list of characters. An accuracy is a number of
-- millionths. `T` is the type of tensors with `shape`; `digest` is the hash of the JSON text of a key, `save`
-- and `load` are `torch.save` and `torch.load` of the payload of a section.
use neuralese.Prelude.{
  ℕ, ◌+◌, Option, none, some, List, [], ◌∷◌, ◌++◌, map, bytes_eq, if◌then◌else◌, ltb, elem, Dict,
  lookup, insert,
}
use mathlib.Core.Option

abbrev pub Text : Type 0
Text = List ℕ

abbrev pub Bytes : Type 0
Bytes = List ℕ

-- `"|".join(layers)`
unfoldable pub join_bar : List Text → Text
join_bar [] = []
join_bar (layer ∷ []) = layer
join_bar (layer ∷ more ∷ layers) = layer ++ b'|' ∷ join_bar (more ∷ layers)

pub record RoughTopoKey : Type 0 where
  pub layers : List Text

unfoldable pub topo_storage_key : RoughTopoKey → Text
topo_storage_key topo = join_bar topo.layers

pub record SectionKey : Type 0 where
  pub dataset_stamp : Text
  pub rough : RoughTopoKey
  pub layer_param_shapes : List (List ℕ)
  pub layer_kinds : List Text
  pub version : ℕ

-- `bins`: topo -> key -> binary
abbrev pub Bins : Type 0
Bins = Dict Text (Dict Text Bytes)

unfoldable pub bins_of : Text → Bins → Dict Text Bytes
bins_of topo bins = Option.get_or (lookup topo bins) []

unfoldable pub persist_binary : Text → Text → Bytes → Bins → Bins
persist_binary topo key binary bins = insert topo (insert key binary (bins_of topo bins)) bins

unfoldable pub get_persisted_binary : Text → Text → Bins → Option Bytes
get_persisted_binary topo key bins = lookup key (bins_of topo bins)

-- A value of a `state_dict`: a tensor, or something else.
pub data Entry (T : Type 0) : Type 0 where
  tensor : T → Entry T
  other : Entry T

abbrev pub State : Type 0 → Type 0
State T = Dict Text (Entry T)

pub record Section (T : Type 0) : Type 0 where
  pub key : SectionKey
  pub layer_states : List (State T)
  pub refcount : ℕ
  pub user_ids : List Text
  pub max_acc : ℕ
  pub created_ts : ℕ

-- `user_ids.add(user_id)`
unfoldable pub add_user : Text → List Text → List Text
add_user user users = if elem user users then users else user ∷ users

module _ {T : Type 0} where
  unfoldable pub bump : Text → ℕ → Section T → Section T
  bump user acc sec = record sec {
    refcount = sec.refcount + 1;
    user_ids = add_user user sec.user_ids;
    max_acc = if ltb sec.max_acc acc then acc else sec.max_acc;
  }

  module _ (shape : T → List ℕ) where
    -- the first tensor of a state
    unfoldable pub first_shape : State T → List ℕ
    first_shape [] = []
    first_shape ((name, tensor t) ∷ state) = shape t
    first_shape ((name, other) ∷ state) = first_shape state

    unfoldable pub layer_param_shape_from_state : State T → List ℕ
    layer_param_shape_from_state state =
        of (lookup (b'w' ∷ b'e' ∷ b'i' ∷ b'g' ∷ b'h' ∷ b't' ∷ []) state)
      where
        of : Option (Entry T) → List ℕ
        of (some (tensor t)) = shape t
        of _ = first_shape state

    unfoldable pub build_section_key : Text → List Text → List (State T) → SectionKey
    build_section_key dataset_stamp rough_layers layer_states = record {
      dataset_stamp = dataset_stamp;
      rough = record { layers = rough_layers };
      layer_param_shapes = map layer_param_shape_from_state layer_states;
      layer_kinds = rough_layers;
      version = 1;
    }

  module _ (digest : SectionKey → Text) where
    unfoldable pub get_persisted_section :
        (Bytes → Option (Section T)) → RoughTopoKey → SectionKey → Bins → Option (Section T)
    get_persisted_section load topo key bins =
        read (get_persisted_binary (topo_storage_key topo) (digest key) bins)
      where
        read : Option Bytes → Option (Section T)
        read none = none
        read (some []) = none
        read (some (b ∷ binary)) = load (b ∷ binary)

    unfoldable pub persist_section : (Section T → Bytes) → Section T → Bins → Bins
    persist_section save sec bins =
        persist_binary (topo_storage_key sec.key.rough) (digest sec.key) (save sec) bins
