-- ===== src/Summary/Render.antt =====
-- `_render_flow` and `_render_flow_until` of services/backend/axon/graph_summary.py. `format` stands for
-- `_format_node` of a tag and its node, and the recursion runs on fuel; `none` is out of fuel. The set of
-- the tags seen is passed along.
use neuralese.Prelude.{
  ℕ, zero, suc, Bool, false, not, ◌||◌, Option, none, some, List, [], ◌∷◌, ◌++◌, String, string_eq,
  ◌==◌, if◌then◌else◌, elem, length, Dict, lookup,
}
use neuralese.Topo.Plan.{keys}
use neuralese.Summary.Reach.{Text, Edge, Scene, is_node, model_outputs, tags_of, first_common_join}

abbrev pub Rendered : Type 0
Rendered = Option (Text × List String)

abbrev arrow : Text
arrow = b' ' ∷ b'-' ∷ b'>' ∷ b' ' ∷ []

abbrev cycle_mark : Text
cycle_mark = b'(' ∷ b'c' ∷ b'y' ∷ b'c' ∷ b'l' ∷ b'e' ∷ b')' ∷ []

abbrev direct : Text
direct = b'(' ∷ b'd' ∷ b'i' ∷ b'r' ∷ b'e' ∷ b'c' ∷ b't' ∷ b')' ∷ []

abbrev split_open : Text
split_open = b's' ∷ b'p' ∷ b'l' ∷ b'i' ∷ b't' ∷ b'[' ∷ []

-- `seen.add(tag)`
unfoldable pub add_seen : String → List String → List String
add_seen tag seen = if elem tag seen then seen else tag ∷ seen

-- `f"{base} -> {tail}" if tail else base`
unfoldable pub with_tail : Text → Rendered → Rendered
with_tail base none = none
with_tail base (some ([], seen)) = some (base, seen)
with_tail base (some (c ∷ tail, seen)) = some (base ++ arrow ++ (c ∷ tail), seen)

abbrev pub or_direct : Text → Text
or_direct [] = direct
or_direct (c ∷ text) = c ∷ text

abbrev pub cons_branch : Text → Option (List Text × List String) → Option (List Text × List String)
cons_branch branch none = none
cons_branch branch (some (branches, seen)) = some (or_direct branch ∷ branches, seen)

abbrev pub then_branches :
    (List String → Option (List Text × List String)) → Rendered → Option (List Text × List String)
then_branches rest none = none
then_branches rest (some (branch, seen)) = cons_branch branch (rest seen)

-- The loop over the candidates.
unfoldable pub render_branches :
    (String → List String → Rendered) → List Edge → List String → Option (List Text × List String)
render_branches go [] seen = some ([], seen)
render_branches go (e ∷ edges) seen = then_branches (render_branches go edges) (go e.to seen)

-- `"; ".join(branches)`
unfoldable pub join_semicolon : List Text → Text
join_semicolon [] = []
join_semicolon (branch ∷ []) = branch
join_semicolon (branch ∷ more ∷ branches) =
    branch ++ (b';' ∷ b' ' ∷ join_semicolon (more ∷ branches))

unfoldable pub split_text : Text → List Text → Text
split_text base branches = base ++ arrow ++ split_open ++ join_semicolon branches ++ (b']' ∷ [])

abbrev pub split_only : Text → Option (List Text × List String) → Rendered
split_only base none = none
split_only base (some (branches, seen)) = some (split_text base branches, seen)

abbrev pub split_then :
    Text → (List String → Rendered) → Option (List Text × List String) → Rendered
split_then base tail none = none
split_then base tail (some (branches, seen)) = with_tail (split_text base branches) (tail seen)

-- The branches up to the tag at which they join, then the rest; all the branches where they do not.
unfoldable pub split_at :
    (String → Option String → List String → Rendered)
    → Text
    → Option String
    → List Edge
    → List String
    → Option (Option String)
    → Rendered
split_at go base stop edges seen none = none
split_at go base stop edges seen (some none) =
    split_only base (render_branches (λ tag s. go tag stop s) edges seen)
split_at go base stop edges seen (some (some join)) =
    let all = split_only base (render_branches (λ tag s. go tag stop s) edges seen) in
    let joined =
      split_then base (λ s. go join stop s)
        (render_branches (λ tag s. go tag (some join) s) edges seen) in
    if join == "" then all else joined

-- What follows a node, by its candidates.
unfoldable pub expand :
    Scene
    → (String → Option String → List String → Rendered)
    → Text
    → Option String
    → List String
    → List Edge
    → Rendered
expand scene go base stop seen [] = some (base, seen)
expand scene go base stop seen (e ∷ []) = with_tail base (go e.to stop seen)
expand scene go base stop seen (e ∷ f ∷ edges) =
    split_at go base stop (e ∷ f ∷ edges) seen (first_common_join scene (tags_of (e ∷ f ∷ edges)))

unfoldable pub is_stop : String → Option String → Bool
is_stop current none = false
is_stop current (some tag) = current == tag

module _ (scene : Scene) (format : String → Text) (activation_source : Dict String String) where
  -- The node, and the source of its activation where it has one.
  unfoldable pub see : String → List String → List String
  see current seen = source (lookup current activation_source)
    where
      source : Option String → List String
      source none = add_seen current seen
      source (some tag) =
          if tag == "" then add_seen current seen else add_seen tag (add_seen current seen)

  unfoldable pub render_flow_until :
      ℕ → String → Option String → List String → List String → Rendered
  render_flow_until zero current stop active seen = none
  render_flow_until (suc fuel) current stop active seen =
      let expanded =
        expand scene (λ tag until s. render_flow_until fuel tag until (current ∷ active) s)
          (format current) stop (see current seen) (model_outputs scene current) in
      if current == "" || is_stop current stop || not (is_node scene current)
      then some ([], seen)
      else if elem current active
      then some (format current ++ cycle_mark, seen)
      else expanded

  unfoldable pub render_flow : String → List String → Rendered
  render_flow root seen = render_flow_until (suc (length (keys scene.types))) root none [] seen
