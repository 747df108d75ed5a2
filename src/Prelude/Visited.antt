-- ===== src/Prelude/Visited.antt =====
-- The members of a list that a search has not visited.
use Prim.Native.Nat.{ℕ, suc, ◌≤◌, ◌<◌}
use Prim.Native.String.{String}
use mathlib.Core.Path.{◌≡◌}
use mathlib.Core.Bool.{true, false, not}
use mathlib.Core.List.{List, [], ◌∷◌}
use native.Mathlib.Omega.{arith}
use text.Mathlib.TextEquality.{eq_iff}
use neuralese.Prelude.Tests.{string_eq}
use neuralese.Prelude.Lists.{length, filter, elem}

unfoldable pub unvisited : List String → List String → ℕ
unvisited nids visited = length (filter (λ n. not (elem n visited)) nids)

unvisited-le :
    (nids visited : List String) (cur : String)
    → unvisited nids (cur ∷ visited) ≤ unvisited nids visited
unfolding unvisited
unvisited-le [] visited cur = omega arith
unvisited-le (x ∷ nids) visited cur = ground (arith, unvisited-le nids visited cur)

pub unvisited-lt :
    (nids visited : List String) (cur : String)
    → elem cur nids ≡ true
    → elem cur visited ≡ false
    → unvisited nids (cur ∷ visited) < unvisited nids visited
unfolding unvisited
unvisited-lt [] visited cur m f = absurd (ground (arith, m))
unvisited-lt (x ∷ nids) visited cur m f = ground (
  arith,
  m,
  f,
  unvisited-le nids visited cur,
  unvisited-lt nids visited cur,
  eq_iff x cur,
  eq_iff cur x,
)

pub unvisited-lt_suc : (nids visited : List String) → unvisited nids visited < suc (length nids)
unfolding unvisited
unvisited-lt_suc [] visited = omega arith
unvisited-lt_suc (x ∷ nids) visited = ground (arith, unvisited-lt_suc nids visited)
