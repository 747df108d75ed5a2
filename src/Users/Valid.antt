-- ===== src/Users/Valid.antt =====
-- The usernames that `validate_username` of services/backend/users/models.py lets through.
use neuralese.Prelude.{
  ℕ, ◌≤◌, ◌≡◌, refl, sym, ap, ◌∙◌, true, false, not, ◌&&◌, [], ◌∷◌, map, bytes_eq, nat_eq, length,
  ok, arith, Bool-cases, inl, inr,
}
use mathlib.Core.Path.{subst}
use neuralese.Users.Names.{
  Text, is_space, lower, lstrip, rstrip, normal, is_allowed, all_allowed, matches, is_reserved,
  checked, validate_username,
}

allowed-plain : (c : ℕ) → is_allowed c ≡ true → (is_space c ≡ false) × (lower c ≡ c)
unfolding is_allowed is_space lower
allowed-plain c h = ground (arith, h)

map-lower : (s : Text) → all_allowed s ≡ true → map lower s ≡ s
unfolding all_allowed
map-lower [] h = refl
map-lower (c ∷ s) h = ground (arith, h, allowed-plain c, map-lower s)

rstrip-allowed : (s : Text) → all_allowed s ≡ true → rstrip s ≡ s
unfolding all_allowed rstrip
rstrip-allowed [] h = refl
rstrip-allowed (c ∷ []) h = ground (arith, h, allowed-plain c)
rstrip-allowed (c ∷ d ∷ s) h = rw (rstrip-allowed (d ∷ s) (ground (arith, h)))

lstrip-allowed : (s : Text) → all_allowed s ≡ true → lstrip s ≡ s
unfolding all_allowed lstrip
lstrip-allowed [] h = refl
lstrip-allowed (c ∷ s) h = ground (arith, h, allowed-plain c)

normal-allowed : (s : Text) → all_allowed s ≡ true → normal s ≡ s
unfolding normal
normal-allowed s h = rw (rstrip-allowed s h, lstrip-allowed s h, map-lower s h)

-- A username: 3 to 20 small letters, digits and underscores, none of the reserved words.
pub record IsUsername (name : Text) : Type 0 where
  pub characters : all_allowed name ≡ true
  pub not_short : 3 ≤ length name
  pub not_long : length name ≤ 20
  pub free : is_reserved name ≡ false

checked-IsUsername : (s name : Text) → checked s ≡ ok name → (name ≡ s) × IsUsername name
unfolding checked matches
checked-IsUsername s name h = elim (Bool-cases (matches s && not (is_reserved s))) [
  | inl good ↦
      let same : s ≡ name = ground (arith, good, h) in
      (
        sym same,
        subst IsUsername same (record {
          characters = ground (arith, good);
          not_short = ground (arith, good);
          not_long = ground (arith, good);
          free = ground (arith, good);
        }),
      )
  | inr bad ↦ absurd (ground (arith, bad, h))
]

-- A name that is accepted is the input without the white space around it and in small letters, it is a
-- username, and it is accepted again unchanged.
pub validate_username-IsUsername :
    (username name : Text)
    → validate_username username ≡ ok name
    → (name ≡ normal username) × IsUsername name × (validate_username name ≡ ok name)
unfolding validate_username
validate_username-IsUsername username name h =
    let (same, good) = checked-IsUsername (normal username) name h in
    (same, good, ap checked (normal-allowed name good.characters ∙ same) ∙ h)
