-- ===== src/Tests/Users.antt =====
-- Usernames of services/backend/users.
use neuralese.Prelude.{
  ℕ, ◌≡◌, refl, some, List, [], ◌∷◌, String, string_eq, bytes_eq, bytes_beq, lookup, ok,
}
use neuralese.Users.Names.{
  Text, is_space, lower, lstrip, rstrip, normal, is_allowed, all_allowed, matches, is_reserved,
  checked, validate_username, student, normalize_account_type,
}
use neuralese.Users.Valid.{IsUsername, validate_username-IsUsername}
use neuralese.Users.Service.{
  UserProfile, Principal, Request, claim, put_default, ensure_account_defaults, save_profile,
  or_else, new_profile, with_fields, differs, refresh, create, has_other_owner, is_taken, has_name,
  store_claim, claim_free, get_or_create_from_principal, claim_username, username_available, serve,
  serve_all,
}
use neuralese.Users.Unique.{no_users, serve_all_unique}

-- " Ann_1"
abbrev typed : Text
typed = b' ' ∷ b'A' ∷ b'n' ∷ b'n' ∷ b'_' ∷ b'1' ∷ []

-- "ann_1"
abbrev name : Text
name = b'a' ∷ b'n' ∷ b'n' ∷ b'_' ∷ b'1' ∷ []

accepts : validate_username typed ≡ ok name
unfolding validate_username checked is_reserved matches all_allowed is_allowed normal lstrip rstrip
    is_space lower bytes_beq
accepts = refl

validate_username-IsUsername_example :
    (name ≡ normal typed) × IsUsername name × (validate_username name ≡ ok name)
validate_username-IsUsername_example = validate_username-IsUsername typed name accepts

abbrev ann : Principal
ann = record { user_id = "u1"; clerk_user_id = "c1"; email = "ann@x.org"; display_name = "" }

abbrev bob : Principal
bob = record { user_id = "u2"; clerk_user_id = "c2"; email = "bob@x.org"; display_name = "" }

abbrev own : String → String
own user_id = user_id

-- Both ask for the same name, the first one gets it.
abbrev requests : List (ℕ × Request)
requests = (1, claim ann typed []) ∷ (2, claim bob name []) ∷ []

abbrev profile : UserProfile
profile = record {
  user_id = "u1";
  account_id = "u1";
  clerk_user_id = "c1";
  email = "ann@x.org";
  display_name = "ann@x.org";
  username = name;
  kind = student;
  created_at = 1;
  updated_at = 1;
}

stored : lookup "u1" (serve_all own requests no_users).profiles ≡ some profile
unfolding validate_username checked is_reserved matches all_allowed is_allowed normal lstrip rstrip
    is_space lower bytes_beq normalize_account_type put_default ensure_account_defaults save_profile
    or_else new_profile with_fields differs refresh create has_other_owner is_taken has_name
    store_claim claim_free get_or_create_from_principal claim_username username_available serve
    serve_all
stored = refl

abbrev account : String
account = "u1"

serve_all_unique_example : account ≡ account
serve_all_unique_example =
    serve_all_unique own requests "u1" "u1" profile profile stored stored
      (unfold has_name bytes_beq in refl) refl
