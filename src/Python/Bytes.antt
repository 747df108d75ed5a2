-- ===== src/Python/Bytes.antt =====
-- `int.to_bytes(w, "big")`, `int.from_bytes(b, "big")`, and `value & mask` on a signed integer.
use Prim.Native.Nat.{◌^◌}
use native.Mathlib.Nat.{pow-suc}
use neuralese.Prelude.{
  ℕ, zero, suc, ◌+◌, ◌-◌, ◌*◌, ◌/◌, ◌%◌, ◌<◌, ◌≡◌, refl, List, [], ◌∷◌, ◌++◌, arith, length,
  length-append, All, All-append,
}
use neuralese.Prelude.Int.{ℤ, pos, negsuc}

unfoldable pub to_bytes : ℕ → ℕ → List ℕ
to_bytes zero v = []
to_bytes (suc w) v = to_bytes w (v / 256) ++ (v % 256 ∷ [])

unfoldable pub from_bytes_onto : ℕ → List ℕ → ℕ
from_bytes_onto acc [] = acc
from_bytes_onto acc (b ∷ bs) = from_bytes_onto (acc * 256 + b) bs

abbrev pub from_bytes : List ℕ → ℕ
from_bytes = from_bytes_onto 0

-- `n & (m - 1)` for `m` a power of two: Python's integers are two's complement of any length.
unfoldable pub low_bits : ℤ → ℕ → ℕ
low_bits (pos n) m = n % m
low_bits (negsuc n) m = m - 1 - n % m

pub length-to_bytes : (w v : ℕ) → length (to_bytes w v) ≡ w
unfolding to_bytes
length-to_bytes zero v = refl
length-to_bytes (suc w) v =
    omega (arith, length-to_bytes w (v / 256), length-append (to_bytes w (v / 256)) (v % 256 ∷ []))

from_bytes_onto-append :
    (acc : ℕ) (xs : List ℕ) (b : ℕ)
    → from_bytes_onto acc (xs ++ (b ∷ [])) ≡ from_bytes_onto acc xs * 256 + b
unfolding from_bytes_onto
from_bytes_onto-append acc [] b = refl
from_bytes_onto-append acc (x ∷ xs) b = from_bytes_onto-append (acc * 256 + x) xs b

pub from_bytes-to_bytes : (w v : ℕ) → v < 256 ^ w → from_bytes (to_bytes w v) ≡ v
unfolding to_bytes
from_bytes-to_bytes zero v h = unfold from_bytes_onto in omega arith
from_bytes-to_bytes (suc w) v h = omega (
  arith,
  from_bytes_onto-append 0 (to_bytes w (v / 256)) (v % 256),
  from_bytes-to_bytes w (v / 256) (below w v h),
)
  where
    below : (w v : ℕ) → v < 256 ^ suc w → v / 256 < 256 ^ w
    below w v h = omega (arith, pow-suc 256 w)

pub to_bytes_below : (w v : ℕ) → All (λ b. b < 256) (to_bytes w v)
unfolding to_bytes
to_bytes_below zero v = tt
to_bytes_below (suc w) v =
    All-append (λ b. b < 256) (to_bytes w (v / 256)) (v % 256 ∷ []) (to_bytes_below w (v / 256))
      (omega arith)
