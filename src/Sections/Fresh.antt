-- ===== src/Sections/Fresh.antt =====
-- Nodes that a chain of services/api/nns/sections/partition.py adds to the visited ones.
use neuralese.Prelude.{
  ◌≡◌, refl, Bool, true, false, ◌||◌, Option, some, List, [], ◌∷◌, ◌++◌, String, string_eq, elem,
  Distinct, arith, beq_self,
}
use package.text.Mathlib.TextEquality.{eq_iff}
use neuralese.Topo.Compare.{string_ord}
use neuralese.Sections.Chains.{cons_chain}

pub elem-append : (n : String) (xs ys : List String) → elem n (xs ++ ys) ≡ (elem n xs || elem n ys)
elem-append n [] ys = refl
elem-append n (x ∷ xs) ys = ground (arith, elem-append n xs ys)

pub Distinct-append :
    (xs ys : List String)
    → Distinct xs
    → Distinct ys
    → ((n : String) → elem n ys ≡ true → elem n xs ≡ false)
    → Distinct (xs ++ ys)
Distinct-append [] ys h k apart = k
Distinct-append (x ∷ xs) ys (f, h) k apart =
    (absent (elem x ys) refl, Distinct-append xs ys h k (λ n e. ground (arith, apart n e)))
  where
    absent : (b : Bool) → elem x ys ≡ b → elem x (xs ++ ys) ≡ false
    absent true e = absurd (ground (arith, apart x e, beq_self x))
    absent false e = ground (arith, e, f, elem-append x xs ys)

-- Distinct nodes of a list that are not in another one.
pub record IsFresh (nids visited chain : List String) : Type 0 where
  pub distinct : Distinct chain
  pub inside : (n : String) → elem n chain ≡ true → elem n nids ≡ true
  pub apart : (n : String) → elem n chain ≡ true → elem n visited ≡ false

pub IsFresh-append :
    {nids : List String} (xs ys visited : List String)
    → IsFresh nids visited xs
    → IsFresh nids (xs ++ visited) ys
    → IsFresh nids visited (xs ++ ys)
IsFresh-append xs ys visited h k = record {
  distinct =
      Distinct-append xs ys h.distinct k.distinct
        (λ n e. ground (arith, k.apart n e, elem-append n xs visited));
  inside = λ n e. ground (arith, e, elem-append n xs ys, h.inside n, k.inside n);
  apart =
      λ n e. ground (arith, e, elem-append n xs ys, h.apart n, k.apart n, elem-append n xs visited);
}

-- A chain was found, and its nodes are fresh.
abbrev pub Found : List String → List String → Option (List String) → Type 0
Found nids visited o = (chain : List String) × (o ≡ some chain) × IsFresh nids visited chain

pub none-Found : (nids visited : List String) → Found nids visited (some [])
none-Found nids visited = (
  [],
  refl,
  record {
    distinct = tt;
    inside = λ n e. absurd (ground (arith, e));
    apart = λ n e. absurd (ground (arith, e));
  },
)

pub cons_chain-Found :
    (nids visited : List String) (cur : String) (o : Option (List String))
    → elem cur nids ≡ true
    → elem cur visited ≡ false
    → Found nids (cur ∷ visited) o
    → Found nids visited (cons_chain cur o)
unfolding cons_chain
cons_chain-Found nids visited cur o m new (chain, e, h) = (
  cur ∷ chain,
  rw e refl,
  record {
    distinct = (absent (elem cur chain) refl, h.distinct);
    inside = λ n k. ground (arith, k, h.inside n, m, eq_iff cur n);
    apart = λ n k. ground (arith, k, h.apart n, new, eq_iff cur n);
  },
)
  where
    absent : (b : Bool) → elem cur chain ≡ b → elem cur chain ≡ false
    absent true k = ground (arith, k, h.apart cur, beq_self cur)
    absent false k = k
