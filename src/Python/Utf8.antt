-- ===== src/Python/Utf8.antt =====
-- Which byte strings `bytes.decode("utf-8")` accepts (RFC 3629).
use neuralese.Prelude.{
  ℕ, ◌-◌, ◌≡◌, refl, Bool, true, false, ◌&&◌, Option, none, some, List, [], ◌∷◌, leb, ltb, eqb,
  if◌then◌else◌,
}

-- How many bytes of the character are still to come, and the range of the next one.
record Pending : Type 0 where
  need : ℕ
  low : ℕ
  high : ℕ

abbrev pending : ℕ → ℕ → ℕ → Option Pending
pending n lo hi = some (record { need = n; low = lo; high = hi })

lead : ℕ → Option Pending
lead b =
    if ltb b 128
    then pending 0 128 191
    else if leb 194 b && leb b 223
    then pending 1 128 191
    else if eqb b 224
    then pending 2 160 191
    else if eqb b 237
    then pending 2 128 159
    else if leb 225 b && leb b 239
    then pending 2 128 191
    else if eqb b 240
    then pending 3 144 191
    else if leb 241 b && leb b 243
    then pending 3 128 191
    else if eqb b 244
    then pending 3 128 143
    else none

accept : Pending → ℕ → Option Pending
unfolding lead
accept p b =
    if eqb p.need 0
    then lead b
    else if leb p.low b && leb b p.high
    then pending (p.need - 1) 128 191
    else none

valid_from : Pending → List ℕ → Bool
unfolding accept
valid_from p [] = eqb p.need 0
valid_from p (b ∷ bs) = elim (accept p b) [ none ↦ false | some q ↦ valid_from q bs ]

unfoldable pub is_utf8 : List ℕ → Bool
unfolding valid_from
is_utf8 = valid_from (record { need = 0; low = 128; high = 191 })

-- U+D800, a surrogate, has no encoding; U+20AC has.
is_utf8_examples :
    (is_utf8 (0xED ∷ 0xA0 ∷ 0x80 ∷ []) ≡ false) × (is_utf8 (0xE2 ∷ 0x82 ∷ 0xAC ∷ []) ≡ true)
unfolding is_utf8
is_utf8_examples = (refl, refl)
