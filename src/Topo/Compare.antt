-- ===== src/Topo/Compare.antt =====
-- Python's order on the keys of services/api/nns/topofuse/plan.py, which are tuples and lists of
-- texts and numbers, and its `sort`.
use Prim.Native.Nat.{compare as compare_nat, Ordering}
use Prim.Native.String.{compare as compare_string}
use neuralese.Prelude.{ℕ, String, Bool, true, false, List, [], ◌∷◌, if◌then◌else◌}

-- The first of two comparisons that tells the sides apart.
abbrev pub then_by : Ordering → Ordering → Ordering
then_by Ordering.eq second = second
then_by first second = first

abbrev pub is_le : Ordering → Bool
is_le Ordering.gt = false
is_le _ = true

abbrev pub is_eq : Ordering → Bool
is_eq Ordering.eq = true
is_eq _ = false

pub record Ord {ℓ} (A : Type ℓ) : Type ℓ where
  pub cmp : A → A → Ordering

instance abbrev pub nat_ord : Ord ℕ
nat_ord = record { cmp = compare_nat }

instance abbrev pub string_ord : Ord String
string_ord = record { cmp = compare_string }

module _ {ℓ κ} {A : Type ℓ} {B : Type κ} ⦃a : Ord A⦄ ⦃b : Ord B⦄ where
  abbrev pub compare_pair : A × B → A × B → Ordering
  compare_pair (x, y) (z, w) = then_by (a.cmp x z) (b.cmp y w)

  instance abbrev pub pair_ord : Ord (A × B)
  pair_ord = record { cmp = compare_pair }

module _ {ℓ} {A : Type ℓ} ⦃a : Ord A⦄ where
  abbrev pub compare_list : List A → List A → Ordering
  compare_list [] [] = Ordering.eq
  compare_list [] (y ∷ ys) = Ordering.lt
  compare_list (x ∷ xs) [] = Ordering.gt
  compare_list (x ∷ xs) (y ∷ ys) = then_by (a.cmp x y) (compare_list xs ys)

  instance abbrev pub list_ord : Ord (List A)
  list_ord = record { cmp = compare_list }

  -- `xs.sort()`
  abbrev pub insert_sorted : A → List A → List A
  insert_sorted x [] = x ∷ []
  insert_sorted x (y ∷ ys) =
      let rest = y ∷ insert_sorted x ys in if is_le (a.cmp x y) then x ∷ y ∷ ys else rest

  abbrev pub sorted : List A → List A
  sorted [] = []
  sorted (x ∷ xs) = insert_sorted x (sorted xs)
