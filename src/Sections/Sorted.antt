-- ===== src/Sections/Sorted.antt =====
-- `sorted` and the order of the starts of services/api/nns/sections/partition.py keep the members of a list.
use neuralese.Prelude.{
  ◌≡◌, refl, ◌∙◌, false, ◌||◌, Bool-cases, inl, inr, List, [], ◌∷◌, map, String, string_eq, ◌==◌,
  elem, Distinct, either_branch, Dict, arith,
}
use package.text.Mathlib.TextEquality.{eq_iff}
use neuralese.Topo.Compare.{string_ord, nat_ord, list_ord, pair_ord, is_le, insert_sorted, sorted}
use neuralese.Sections.Partition.{Text}
use neuralese.Sections.Chains.{Ranked, ranked, unranked, by_rank}

elem-insert_sorted :
    (n x : String) (xs : List String) → elem n (insert_sorted x xs) ≡ (x == n || elem n xs)
elem-insert_sorted n x [] = refl
elem-insert_sorted n x (y ∷ xs) = elim (Bool-cases (is_le (string_ord.cmp x y))) [
  | inl first ↦ rw first refl
  | inr later ↦ rw later (ground (arith, elem-insert_sorted n x xs))
]

pub elem-sorted : (n : String) (xs : List String) → elem n (sorted xs) ≡ elem n xs
elem-sorted n [] = refl
elem-sorted n (x ∷ xs) = ground (arith, elem-insert_sorted n x (sorted xs), elem-sorted n xs)

insert_sorted-Distinct :
    (x : String) (xs : List String)
    → elem x xs ≡ false
    → Distinct xs
    → Distinct (insert_sorted x xs)
insert_sorted-Distinct x [] f h = (refl, tt)
insert_sorted-Distinct x (y ∷ xs) f h = elim (Bool-cases (is_le (string_ord.cmp x y))) [
  | inl first ↦ rw first (f, h)
  | inr later ↦ rw later (
    ground (arith, elem-insert_sorted y x xs, h.0, f, eq_iff x y, eq_iff y x),
    insert_sorted-Distinct x xs (ground (arith, f)) h.1,
  )
]

pub sorted-Distinct : (xs : List String) → Distinct xs → Distinct (sorted xs)
sorted-Distinct [] h = tt
sorted-Distinct (x ∷ xs) h =
    insert_sorted-Distinct x (sorted xs) (elem-sorted x xs ∙ h.0) (sorted-Distinct xs h.1)

elem-insert_ranked :
    (n : String) (r : Ranked) (rs : List Ranked)
    → elem n (map unranked (insert_sorted r rs)) ≡ (unranked r == n || elem n (map unranked rs))
elem-insert_ranked n r [] = refl
elem-insert_ranked n (k, x) ((j, y) ∷ rs) =
    either_branch
      (λ ranks. elem n (map unranked ranks) ≡ (x == n || (y == n || elem n (map unranked rs))))
      (is_le (pair_ord.cmp (k, x) (j, y))) refl (ground (arith, elem-insert_ranked n (k, x) rs))

elem-sorted_ranked :
    (n : String) (rs : List Ranked) → elem n (map unranked (sorted rs)) ≡ elem n (map unranked rs)
elem-sorted_ranked n [] = refl
elem-sorted_ranked n ((k, x) ∷ rs) =
    ground (arith, elem-insert_ranked n (k, x) (sorted rs), elem-sorted_ranked n rs)

elem-map-ranked :
    (kinds : Dict String Text) (n : String) (nids : List String)
    → elem n (map unranked (map (ranked kinds) nids)) ≡ elem n nids
elem-map-ranked kinds n [] = refl
elem-map-ranked kinds n (x ∷ nids) = ground (arith, elem-map-ranked kinds n nids)

pub elem-by_rank :
    (kinds : Dict String Text) (n : String) (nids : List String)
    → elem n (by_rank kinds nids) ≡ elem n nids
unfolding by_rank
elem-by_rank kinds n nids =
    elem-sorted_ranked n (map (ranked kinds) nids) ∙ elem-map-ranked kinds n nids
