-- ===== src/Users/Service.antt =====
-- `UserService` of services/backend/users/service.py. The documents under /profiles, /usernames and
-- /accounts are three dictionaries, and a profile is kept as the record that `from_payload` reads back.
-- `account_id_for` stands for `account_id_for_user_id`, a SHA-3 hash, and `now` for the time.
use neuralese.Prelude.{
  ℕ, Bool, false, not, ◌&&◌, Option, none, some, List, [], ◌∷◌, String, string_eq, bytes_eq,
  pair_eq, ◌==◌, if◌then◌else◌, Dict, lookup, insert, erase, Result, ok, err,
}
use neuralese.Python.Values.{Value, text, object, field, end}
use neuralese.Users.Names.{
  Text, UserError, username_taken, AccountType, student, validate_username, normalize_account_type,
}

pub record UserProfile : Type 0 where
  pub user_id : String
  pub account_id : String
  pub clerk_user_id : String
  pub email : String
  pub display_name : String
  pub username : Text
  pub kind : AccountType
  pub created_at : ℕ
  pub updated_at : ℕ

pub record Principal : Type 0 where
  pub user_id : String
  pub clerk_user_id : String
  pub email : String
  pub display_name : String

pub record Owner : Type 0 where
  pub account_id : String
  pub user_id : String

pub record Users : Type 0 where
  pub profiles : Dict String UserProfile
  pub usernames : Dict Text Owner
  pub documents : Dict (String × String) Value

-- `ensure_account_defaults`
unfoldable pub put_default :
    String × String → Value → Dict (String × String) Value → Dict (String × String) Value
put_default path value documents = put (lookup path documents)
  where
    put : Option Value → Dict (String × String) Value
    put none = insert path value documents
    put (some found) = documents

abbrev one_field : String → Value
one_field key = object (field key (text []) end)

unfoldable pub ensure_account_defaults : String → Users → Users
ensure_account_defaults account_id s = record s {
  documents =
      put_default (account_id, "datasets/metas.doc") (one_field "meta")
        (put_default (account_id, "projects/metas.doc") (one_field "meta")
          (put_default (account_id, "config.doc") (one_field "my_classroom") s.documents));
}

unfoldable pub save_profile : UserProfile → Users → Users
save_profile profile s = record s { profiles = insert profile.account_id profile s.profiles }

-- `a or b`
unfoldable pub or_else : String → String → String
or_else a b = if a == "" then b else a

unfoldable pub new_profile : String → ℕ → Principal → UserProfile
new_profile account_id now principal = record {
  user_id = principal.user_id;
  account_id = account_id;
  clerk_user_id = principal.clerk_user_id;
  email = principal.email;
  display_name = or_else principal.display_name (or_else principal.email principal.clerk_user_id);
  username = [];
  kind = student;
  created_at = now;
  updated_at = now;
}

-- The profile with the fields of the principal that are not empty.
unfoldable pub with_fields : Principal → UserProfile → UserProfile
with_fields principal p = record p {
  email = or_else principal.email p.email;
  display_name = or_else principal.display_name p.display_name;
  clerk_user_id = or_else principal.clerk_user_id p.clerk_user_id;
}

unfoldable pub differs : UserProfile → UserProfile → Bool
differs p q =
    not (
      p.email == q.email
      && (p.display_name == q.display_name && p.clerk_user_id == q.clerk_user_id))

-- The branch of a profile that is there already: it is saved if it changed.
unfoldable pub refresh : String → ℕ → Principal → UserProfile → Users → UserProfile × Users
refresh root now principal p s =
    if differs (with_fields principal p) p
    then (
      record (with_fields principal p) { updated_at = now },
      ensure_account_defaults root
          (save_profile (record (with_fields principal p) { updated_at = now }) s),
    )
    else (p, ensure_account_defaults root s)

unfoldable pub create : String → ℕ → Principal → Users → UserProfile × Users
create account_id now principal s =
    let p = new_profile account_id now principal in
    (p, ensure_account_defaults account_id (save_profile p s))

unfoldable pub has_other_owner : UserProfile → Option Owner → Bool
has_other_owner p none = false
has_other_owner p (some owner) = not (owner.account_id == p.account_id)

unfoldable pub is_taken : Text → UserProfile → Users → Bool
is_taken name p s = has_other_owner p (lookup name s.usernames)

unfoldable pub has_name : UserProfile → Bool
has_name p = not (p.username == [])

-- `claim_username` once the name is free: the old name goes, the new one is written.
unfoldable pub store_claim : Text → AccountType → ℕ → UserProfile → Users → UserProfile × Users
store_claim name kind now p s =
    let q = record p { username = name; kind = kind; updated_at = now } in
    let kept =
      if has_name p && not (p.username == name)
      then erase p.username s.usernames
      else s.usernames in
    (
      q,
      record (save_profile q s) {
        usernames = insert name (record { account_id = p.account_id; user_id = p.user_id }) kept;
      },
    )

unfoldable pub claim_free :
    Text → AccountType → ℕ → UserProfile × Users → Result UserError UserProfile × Users
claim_free name kind now (p, s) =
    let claimed = store_claim name kind now p s in
    if is_taken name p s then (err username_taken, s) else (ok claimed.0, claimed.1)

-- What a client can ask for, and the store after it.
pub data Request : Type 0 where
  sign_in : Principal → Request
  claim : Principal → Text → Text → Request
  ask : Principal → Text → Request

module _ (account_id_for : String → String) where
  unfoldable pub get_or_create_from_principal : ℕ → Principal → Users → UserProfile × Users
  get_or_create_from_principal now principal s =
      found (lookup (account_id_for principal.user_id) s.profiles)
    where
      found : Option UserProfile → UserProfile × Users
      found none = create (account_id_for principal.user_id) now principal s
      found (some p) = refresh (account_id_for p.user_id) now principal p s

  unfoldable pub claim_username :
      ℕ → Principal → Text → Text → Users → Result UserError UserProfile × Users
  claim_username now principal username account_type s = go (validate_username username)
    where
      go : Result UserError Text → Result UserError UserProfile × Users
      go (err raised) = (err raised, s)
      go (ok name) =
          claim_free name (normalize_account_type account_type) now
            (get_or_create_from_principal now principal s)

  unfoldable pub username_available :
      ℕ → Principal → Text → Users → Result UserError (Text × Bool) × Users
  username_available now principal username s = go (validate_username username)
    where
      answer : Text → UserProfile × Users → Result UserError (Text × Bool) × Users
      answer name (p, t) = (ok (name, not (is_taken name p t)), t)

      go : Result UserError Text → Result UserError (Text × Bool) × Users
      go (err raised) = (err raised, s)
      go (ok name) = answer name (get_or_create_from_principal now principal s)

  unfoldable pub serve : ℕ → Request → Users → Users
  serve now (sign_in principal) s = (get_or_create_from_principal now principal s).1
  serve now (claim principal username account_type) s =
      (claim_username now principal username account_type s).1
  serve now (ask principal username) s = (username_available now principal username s).1

  unfoldable pub serve_all : List (ℕ × Request) → Users → Users
  serve_all [] s = s
  serve_all ((now, request) ∷ requests) s = serve_all requests (serve now request s)
