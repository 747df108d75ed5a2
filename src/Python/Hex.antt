-- ===== src/Python/Hex.antt =====
-- `bytes.hex` and `bytes.fromhex`, over the characters' codes.
use neuralese.Prelude.{
  ℕ, ◌+◌, ◌-◌, ◌*◌, ◌/◌, ◌%◌, ◌<◌, ◌≡◌, refl, ap, Bool, false, ◌&&◌, ◌||◌, Option, none, some, List,
  [], ◌∷◌, arith, ltb, leb, eqb, if◌then◌else◌, All,
}

hex_digit : ℕ → ℕ
hex_digit n = if ltb n 10 then n + 48 else n + 87

unfoldable pub hex : List ℕ → List ℕ
unfolding hex_digit
hex [] = []
hex (b ∷ bs) = hex_digit (b / 16) ∷ hex_digit (b % 16) ∷ hex bs

digit_value : ℕ → Option ℕ
digit_value c =
    if leb 48 c && leb c 57
    then some (c - 48)
    else if leb 97 c && leb c 102
    then some (c - 87)
    else if leb 65 c && leb c 70
    then some (c - 55)
    else none

is_blank : ℕ → Bool
is_blank c = eqb c 32 || (leb 9 c && leb c 13)

pair_value : Option ℕ → Option ℕ → Option ℕ
pair_value (some hi) (some lo) = some (hi * 16 + lo)
pair_value _ _ = none

prepend : Option ℕ → Option (List ℕ) → Option (List ℕ)
prepend (some b) (some bs) = some (b ∷ bs)
prepend _ _ = none

-- White space may stand between two bytes and not inside one.
unfoldable pub from_hex : List ℕ → Option (List ℕ)
unfolding digit_value is_blank pair_value prepend
from_hex [] = some []
from_hex (c ∷ []) = if is_blank c then some [] else none
from_hex (c ∷ d ∷ s) =
    let skip = from_hex (d ∷ s) in
    let more = prepend (pair_value (digit_value c) (digit_value d)) (from_hex s) in
    if is_blank c then skip else more

digit_value-hex_digit : (n : ℕ) → n < 16 → digit_value (hex_digit n) ≡ some n
unfolding hex_digit digit_value
digit_value-hex_digit n h = ground arith

not_blank : (n : ℕ) → n < 16 → is_blank (hex_digit n) ≡ false
unfolding hex_digit is_blank
not_blank n h = ground arith

-- Reading the hexadecimal form of a byte string gives the bytes back.
pub from_hex-hex : (bs : List ℕ) → All (λ b. b < 256) bs → from_hex (hex bs) ≡ some bs
unfolding from_hex hex
from_hex-hex [] h = refl
from_hex-hex (b ∷ bs) h =
    rw
      (
        not_blank (b / 16) (omega arith),
        digit_value-hex_digit (b / 16) (omega arith),
        digit_value-hex_digit (b % 16) (omega arith),
        from_hex-hex bs h.1,
      )
      (ap (λ (x : ℕ). some (x ∷ bs)) (omega arith))
