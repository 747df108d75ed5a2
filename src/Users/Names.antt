-- ===== src/Users/Names.antt =====
-- `validate_username` and `normalize_account_type` of services/backend/users/models.py. A text is the
-- list of the codes of its characters, which are ASCII characters here: what `lower` and `strip` do to
-- others is not modelled.
use neuralese.Prelude.{
  ℕ, ◌+◌, Bool, true, not, ◌&&◌, ◌||◌, List, [], ◌∷◌, map, bytes_eq, nat_eq, ◌==◌, if◌then◌else◌,
  eqb, leb, length, elem, Result, ok, ◌>>◌, require,
}

abbrev pub Text : Type 0
Text = List ℕ

-- `c.isspace()`
unfoldable pub is_space : ℕ → Bool
is_space c = eqb c 32 || (leb 9 c && leb c 13) || (leb 28 c && leb c 31)

unfoldable pub lower : ℕ → ℕ
lower c = if leb 65 c && leb c 90 then c + 32 else c

unfoldable pub lstrip : Text → Text
lstrip [] = []
lstrip (c ∷ s) = let rest = lstrip s in if is_space c then rest else c ∷ s

-- the text without the white space behind
unfoldable pub rstrip : Text → Text
rstrip [] = []
rstrip (c ∷ s) = drop_last c (rstrip s)
  where
    drop_last : ℕ → Text → Text
    drop_last c [] = if is_space c then [] else c ∷ []
    drop_last c (d ∷ s) = c ∷ d ∷ s

-- `username.strip().lower()`
unfoldable pub normal : Text → Text
normal username = map lower (lstrip (rstrip username))

-- `[a-z0-9_]`
unfoldable pub is_allowed : ℕ → Bool
is_allowed c = (leb 97 c && leb c 122) || (leb 48 c && leb c 57) || eqb c 95

unfoldable pub all_allowed : Text → Bool
all_allowed [] = true
all_allowed (c ∷ s) = is_allowed c && all_allowed s

-- `USERNAME_RE.match`
unfoldable pub matches : Text → Bool
matches s = all_allowed s && (leb 3 (length s) && leb (length s) 20)

abbrev pub reserved_usernames : List Text
reserved_usernames =
    (b'a' ∷ b'd' ∷ b'm' ∷ b'i' ∷ b'n' ∷ [])
    ∷ (b'a' ∷ b'd' ∷ b'm' ∷ b'i' ∷ b'n' ∷ b'i' ∷ b's' ∷ b't' ∷ b'r' ∷ b'a' ∷ b't' ∷ b'o' ∷ b'r'
        ∷ [])
    ∷ (b'a' ∷ b'p' ∷ b'i' ∷ [])
    ∷ (b'a' ∷ b'u' ∷ b't' ∷ b'h' ∷ [])
    ∷ (b'b' ∷ b'i' ∷ b'l' ∷ b'l' ∷ b'i' ∷ b'n' ∷ b'g' ∷ [])
    ∷ (b'c' ∷ b'l' ∷ b'e' ∷ b'r' ∷ b'k' ∷ [])
    ∷ (b'h' ∷ b'e' ∷ b'l' ∷ b'p' ∷ [])
    ∷ (b'l' ∷ b'o' ∷ b'g' ∷ b'i' ∷ b'n' ∷ [])
    ∷ (b'l' ∷ b'o' ∷ b'g' ∷ b'o' ∷ b'u' ∷ b't' ∷ [])
    ∷ (b'm' ∷ b'e' ∷ [])
    ∷ (b'n' ∷ b'e' ∷ b'u' ∷ b'r' ∷ b'a' ∷ b'l' ∷ b'e' ∷ b's' ∷ b'e' ∷ [])
    ∷ (b'n' ∷ b'u' ∷ b'l' ∷ b'l' ∷ [])
    ∷ (b'o' ∷ b'w' ∷ b'n' ∷ b'e' ∷ b'r' ∷ [])
    ∷ (b'r' ∷ b'o' ∷ b'o' ∷ b't' ∷ [])
    ∷ (b's' ∷ b'e' ∷ b't' ∷ b't' ∷ b'i' ∷ b'n' ∷ b'g' ∷ b's' ∷ [])
    ∷ (b's' ∷ b'u' ∷ b'p' ∷ b'p' ∷ b'o' ∷ b'r' ∷ b't' ∷ [])
    ∷ (b's' ∷ b'y' ∷ b's' ∷ b't' ∷ b'e' ∷ b'm' ∷ [])
    ∷ (b't' ∷ b'e' ∷ b'a' ∷ b'c' ∷ b'h' ∷ b'e' ∷ b'r' ∷ [])
    ∷ (b'u' ∷ b'n' ∷ b'd' ∷ b'e' ∷ b'f' ∷ b'i' ∷ b'n' ∷ b'e' ∷ b'd' ∷ [])
    ∷ (b'u' ∷ b's' ∷ b'e' ∷ b'r' ∷ [])
    ∷ []

pub data UserError : Type 0 where
  email_address bad_username reserved username_taken : UserError

unfoldable pub is_reserved : Text → Bool
is_reserved name = elem name reserved_usernames

unfoldable pub checked : Text → Result UserError Text
checked normalized = do
  require (not (elem b'@' normalized || elem b'.' normalized)) email_address
  require (matches normalized) bad_username
  require (not (is_reserved normalized)) reserved
  ok normalized

unfoldable pub validate_username : Text → Result UserError Text
validate_username username = checked (normal username)

pub data AccountType : Type 0 where
  student teacher : AccountType

unfoldable pub normalize_account_type : Text → AccountType
normalize_account_type value =
    if normal value == (b't' ∷ b'e' ∷ b'a' ∷ b'c' ∷ b'h' ∷ b'e' ∷ b'r' ∷ [])
    then teacher
    else student
