-- ===== src/Auth/Attempts.antt =====
-- Device logins: services/backend/auth/attempts.py. Each reading of the clock is an argument, and
-- so are the values that `secrets` draws. The attempts that the methods return are the objects in
-- the store, so a method answers with the attempt as the store then holds it.
use neuralese.Prelude.{
  ℕ, ◌+◌, Bool, true, false, ◌&&◌, ◌||◌, Option, none, some, String, string_eq, ◌==◌, leb,
  if◌then◌else◌, Dict, lookup, insert, Result, ok, err,
}
use neuralese.Python.Values.{Value}
use neuralese.Auth.Tokens.{Text, is_empty, AuthError, ClerkUser, TokenPair}

pub data Status : Type 0 where
  pending expired canceled signed_out complete : Status

-- `status == "pending"` and the like
abbrev pub is_pending : Status → Bool
is_pending pending = true
is_pending _ = false

abbrev pub is_expired_status : Status → Bool
is_expired_status expired = true
is_expired_status _ = false

pub record LoginAttempt : Type 0 where
  pub device_secret_hash : String
  pub created_at : ℕ
  pub expires_at : ℕ
  pub status : Status
  pub token_pair : Option TokenPair
  pub clerk_user : Option ClerkUser
  pub profile : Option Value
  pub completed_at : ℕ
  -- `event.is_set()`
  pub event : Bool

abbrev pub AttemptStore : Type 0
AttemptStore = Dict String LoginAttempt

pub data AttemptError : Type 0 where
  not_found attempt_expired attempt_canceled username_required invalid_device_secret : AttemptError
  auth : AuthError → AttemptError

unfoldable pub is_expired : LoginAttempt → ℕ → Bool
is_expired a now = leb a.expires_at now

unfoldable pub set_status : Status → LoginAttempt → LoginAttempt
set_status s a = record a { status = s; event = true }

-- The part of `get` that writes.
unfoldable pub expire_if_due : ℕ → LoginAttempt → LoginAttempt
expire_if_due now a = if is_pending a.status && is_expired a now then set_status expired a else a

abbrev pub Answer : Type 0
Answer = Result AttemptError LoginAttempt

unfoldable pub get : String → ℕ → AttemptStore → Option LoginAttempt × AttemptStore
get id now store = found (lookup id store)
  where
    found : Option LoginAttempt → Option LoginAttempt × AttemptStore
    found none = (none, store)
    found (some a) = let b = expire_if_due now a in (some b, insert id b store)

-- A method on the attempt that `get` returns: `f` is the rest of it, its answer and the object then.
unfoldable pub with_attempt :
    (LoginAttempt → Answer × LoginAttempt) → String → ℕ → AttemptStore → Answer × AttemptStore
with_attempt f id now store = let got = get id now store in found (got.0) (got.1)
  where
    found : Option LoginAttempt → AttemptStore → Answer × AttemptStore
    found none store = (err not_found, store)
    found (some a) store = let r = f a in (r.0, insert id (r.1) store)

-- What each method does with the attempt that it found.
unfoldable pub cancel_found : Bool → LoginAttempt → Answer × LoginAttempt
cancel_found verified a =
    let b = if is_pending a.status then set_status canceled a else a in
    if verified then (ok b, b) else (err invalid_device_secret, a)

unfoldable pub signed_out_found : LoginAttempt → Answer × LoginAttempt
signed_out_found a = let b = if is_pending a.status then set_status signed_out a else a in (ok b, b)

unfoldable pub issued_found :
    Result AuthError TokenPair → ClerkUser → Value → ℕ → LoginAttempt → Answer × LoginAttempt
issued_found (err e) user profile now a = (err (auth e), a)
issued_found (ok pair) user profile now a =
    let b = record a {
      token_pair = some pair;
      clerk_user = some user;
      profile = some profile;
      status = complete;
      completed_at = now;
      event = true;
    } in
    (ok b, b)

unfoldable pub completing :
    Status
    → Result AuthError TokenPair
    → ClerkUser
    → Text
    → Value
    → ℕ
    → LoginAttempt
    → Answer × LoginAttempt
completing canceled issued user username profile now a = (err attempt_canceled, a)
completing complete issued user username profile now a = (ok a, a)
completing _ issued user username profile now a =
    let r = issued_found issued user profile now a in
    if is_empty username then (err username_required, a) else r

unfoldable pub complete_found :
    Result AuthError TokenPair
    → ClerkUser
    → Text
    → Value
    → ℕ
    → ℕ
    → LoginAttempt
    → Answer × LoginAttempt
complete_found issued user username profile checked now a =
    if is_expired_status a.status || is_expired a checked
    then (err attempt_expired, set_status expired a)
    else completing a.status issued user username profile now a

-- `cancel`, `signed_out` and `complete`. `username` is `profile.username`, and `profile` the payload
-- the attempt keeps; `issued` is what `issue_token_pair` does.
module _ (hash_secret : String → String) where
  unfoldable pub create : String → String → ℕ → ℕ → ℕ → AttemptStore → LoginAttempt × AttemptStore
  create id secret created expires_from ttl store =
      let a : LoginAttempt = record {
        device_secret_hash = hash_secret secret;
        created_at = created;
        expires_at = expires_from + ttl;
        status = pending;
        token_pair = none;
        clerk_user = none;
        profile = none;
        completed_at = 0;
        event = false;
      } in
      (a, insert id a store)

  unfoldable pub verify_device_secret : LoginAttempt → String → Bool
  verify_device_secret a secret = a.device_secret_hash == hash_secret secret

  unfoldable pub cancel : String → String → ℕ → AttemptStore → Answer × AttemptStore
  cancel id secret = with_attempt (λ a. cancel_found (verify_device_secret a secret) a) id

unfoldable pub signed_out_attempt : String → ℕ → AttemptStore → Answer × AttemptStore
signed_out_attempt = with_attempt signed_out_found

unfoldable pub complete_attempt :
    Result AuthError TokenPair
    → ClerkUser
    → Text
    → Value
    → String
    → ℕ
    → ℕ
    → ℕ
    → AttemptStore
    → Answer × AttemptStore
complete_attempt issued user username profile id got checked now =
    with_attempt (complete_found issued user username profile checked now) id got

pub data Payload : Type 0 where
  completed : Option TokenPair → Option ClerkUser → Option Value → Payload
  waiting : Status → ℕ → Payload

unfoldable pub result_payload : LoginAttempt → Payload
result_payload a = elim a.status [
  | complete ↦ completed a.token_pair a.clerk_user a.profile
  | s ↦ waiting s a.expires_at
]
