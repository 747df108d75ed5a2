-- ===== src/Python/Values.antt =====
-- The values that a field of type `Any` can hold. A text is the list of its UTF-8 bytes, so that it
-- can be walked. Of a float there is the integer that Python's `int` truncates it to, `none` for those
-- on which it raises, and whether it is zero, which is all that the code modelled over these values
-- reads of it.
use neuralese.Prelude.{
  is_empty, ℕ, zero, ◌+◌, ◌-◌, ◌*◌, ◌≡◌, refl, Bool, true, false, ◌&&◌, ◌||◌, not, Option, none,
  some, List, [], ◌∷◌, String, string_eq, leb, eqb, ◌==◌, if◌then◌else◌,
}
use mathlib.Core.Option
use neuralese.Prelude.Int.{ℤ, pos, negsuc, ◌-ℤ◌}

mutual
  pub data Value : Type 0 where
    null : Value
    boolean : Bool → Value
    int : ℤ → Value
    float : Option ℤ → Bool → Value
    text : List ℕ → Value
    bytes : List ℕ → Value
    array : Values → Value
    object : Fields → Value

  pub data Values : Type 0 where
    nil : Values
    cons : Value → Values → Values

  pub data Fields : Type 0 where
    end : Fields
    field : String → Value → Fields → Fields

-- `d.get(key)` and `d.get(key, default)`
unfoldable pub get? : Fields → String → Option Value
get? end key = none
get? (field k v rest) key = if k == key then some v else get? rest key

unfoldable pub get_or : Fields → String → Value → Value
unfolding get?
get_or fields key default = elim (get? fields key) [ none ↦ default | some v ↦ v ]

-- `bool(value)`
unfoldable pub truthy : Value → Bool
truthy null = false
truthy (boolean b) = b
truthy (int (pos zero)) = false
truthy (float whole is_zero) = not is_zero
truthy (text []) = false
truthy (bytes []) = false
truthy (array nil) = false
truthy (object end) = false
truthy _ = true

is_space : ℕ → Bool
is_space c = eqb c 32 || (leb 9 c && leb c 13)

is_digit : ℕ → Bool
is_digit c = leb 48 c && leb c 57

unfoldable pub lstrip : List ℕ → List ℕ
unfolding is_space
lstrip [] = []
lstrip (c ∷ s) = let rest = lstrip s in if is_space c then rest else c ∷ s

-- The digits of an `int` literal, one `_` allowed between two digits, and white space behind.
-- `after` is whether a digit was the last character read.
digits : Bool → ℕ → List ℕ → Option ℕ
unfolding is_digit
digits after n [] = if after then some n else none
digits after n (c ∷ s) =
    let more = digits true (n * 10 + (c - 48)) s in
    let skip = digits false n s in
    let done = if after && is_empty (lstrip (c ∷ s)) then some n else none in
    if is_digit c then more else if after && eqb c 95 then skip else done

abbrev negate : ℕ → ℤ
negate n = pos 0 -ℤ pos n

-- `int(text)`
unfoldable pub parse_int : List ℕ → Option ℤ
unfolding digits ◌-ℤ◌ lstrip
parse_int s = signed (lstrip s)
  where
    signed : List ℕ → Option ℤ
    signed [] = none
    signed (c ∷ rest) =
        if eqb c 45
        then Option.map negate (digits false 0 rest)
        else if eqb c 43
        then Option.map pos (digits false 0 rest)
        else Option.map pos (digits false 0 (c ∷ rest))

abbrev bool_int : Bool → ℤ
bool_int true = pos 1
bool_int false = pos 0

-- `int(value)`; `none` is a `TypeError` or a `ValueError`
unfoldable pub to_int : Value → Option ℤ
unfolding parse_int
to_int (boolean b) = some (bool_int b)
to_int (int n) = some n
to_int (float whole is_zero) = whole
to_int (text s) = parse_int s
to_int (bytes s) = parse_int s
to_int _ = none

parse_int_example : parse_int (b' ' ∷ b'-' ∷ b'1' ∷ b'_' ∷ b'2' ∷ b' ' ∷ []) ≡ some (negsuc 11)
unfolding parse_int
parse_int_example = refl

parse_int_rejects : parse_int (b'1' ∷ b' ' ∷ b'2' ∷ []) ≡ none
unfolding parse_int
parse_int_rejects = refl
