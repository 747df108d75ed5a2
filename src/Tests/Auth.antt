-- ===== src/Tests/Auth.antt =====
-- Logins and tokens of services/backend/auth.
use neuralese.Prelude.{
  ℕ, ◌<◌, ◌≡◌, ◌≢◌, refl, false, true, none, some, List, [], ◌∷◌, String, string_eq, lookup, Result,
  ok, err, ◌>>=◌, arith,
}
use neuralese.Python.Values.{Value}
use neuralese.Auth.Tokens.{
  Text, AuthError, expected_type, Settings, ClerkUser, Claims, TokenPair, access, subject,
  claims_of, refresh, issue_token_pair, principal_of, principal-issue, principal-refresh,
}
use neuralese.Auth.Attempts.{
  Status, LoginAttempt, create, cancel, complete_found, with_attempt, get, expire_if_due,
  is_expired, set_status, cancel_found, verify_device_secret, completing, issued_found,
  complete_attempt,
}
use neuralese.Auth.Lifecycle.{IsSettled, complete_found-ok}
use neuralese.Auth.Runs.{
  Call, perform, perform_all, is_creation_of, is_dead, run-IsSettled, perform_all-dead,
}

abbrev settings : Settings
settings = record {
  jwt_issuer = 1 ∷ [];
  jwt_audience = 2 ∷ [];
  jwt_secret = 3 ∷ [];
  access_token_ttl_seconds = 60;
  refresh_token_ttl_seconds = 600;
}

abbrev ada : ClerkUser
ada = record { clerk_user_id = b'a' ∷ []; email = []; display_name = [] }

abbrev toy_encode : Claims → Text → Text
toy_encode claims secret = secret

abbrev toy_decode : Claims → Text → Text → Text → Text → ℕ → Result AuthError Claims
toy_decode claims token secret audience issuer now = ok claims

abbrev access_claims : Claims
access_claims = claims_of settings ada 100 access (b'x' ∷ []) 60

abbrev refresh_claims : Claims
refresh_claims = claims_of settings ada 100 refresh (b'y' ∷ []) 600

principal-issue_example :
    (issue_token_pair toy_encode (toy_decode access_claims) settings ada 100 (b'x' ∷ []) (b'y' ∷ [])
      >>= λ pair. principal_of toy_encode (toy_decode access_claims) settings pair.access_token 130)
    ≡ ok (record {
      user_id = subject (b'a' ∷ []);
      clerk_user_id = b'a' ∷ [];
      email = [];
      display_name = b'a' ∷ [];
      token_id = b'x' ∷ [];
    })
principal-issue_example =
    principal-issue toy_encode (toy_decode access_claims) settings ada 100 130 (b'x' ∷ [])
      (b'y' ∷ []) (λ now a b c. refl) (omega arith) (omega arith)

principal-refresh_example :
    (issue_token_pair toy_encode
        (toy_decode refresh_claims)
        settings
        ada
        100
        (b'x' ∷ [])
        (b'y' ∷ [])
      >>= λ pair.
          principal_of toy_encode (toy_decode refresh_claims) settings pair.refresh_token 130)
    ≡ err (expected_type access)
principal-refresh_example =
    principal-refresh toy_encode (toy_decode refresh_claims) settings ada 100 130 (b'x' ∷ [])
      (b'y' ∷ []) (λ now a b c. refl) (omega arith) (omega arith)

abbrev hash : String → String
hash secret = secret

abbrev calls : List Call
calls = Call.creates "login_1" "s3cret" 100 100 300 ∷ Call.cancels_with "login_1" "s3cret" 150 ∷ []

abbrev canceled_login : LoginAttempt
canceled_login = record {
  device_secret_hash = "s3cret";
  created_at = 100;
  expires_at = 400;
  status = Status.canceled;
  token_pair = none;
  clerk_user = none;
  profile = none;
  completed_at = 0;
  event = true;
}

calls_cancel : lookup "login_1" (perform_all hash calls []) ≡ some canceled_login
unfolding perform_all perform create cancel with_attempt get expire_if_due is_expired set_status
    cancel_found verify_device_secret
calls_cancel = refl

run-IsSettled_example : IsSettled canceled_login
run-IsSettled_example = run-IsSettled hash calls "login_1" canceled_login calls_cancel

pair_issued : Result AuthError TokenPair
pair_issued =
    issue_token_pair toy_encode (toy_decode access_claims) settings ada 160 (b'x' ∷ []) (b'y' ∷ [])

abbrev later_calls : List Call
later_calls =
    Call.gets "login_1" 155
    ∷ Call.completes_with pair_issued ada (b'a' ∷ []) Value.null "login_1" 160 160 160
    ∷ []

later_calls_run :
    lookup "login_1" (perform_all hash later_calls (("login_1", canceled_login) ∷ []))
    ≡ some canceled_login
unfolding perform_all perform with_attempt get expire_if_due is_expired complete_attempt
    complete_found completing set_status
later_calls_run = refl

perform_all-dead_example : is_dead canceled_login.status ≡ true
unfolding is_creation_of is_dead
perform_all-dead_example =
    perform_all-dead hash "login_1" later_calls (("login_1", canceled_login) ∷ []) canceled_login
      canceled_login refl refl refl later_calls_run

abbrev pair : TokenPair
pair = record {
  access_token = 1 ∷ [];
  refresh_token = 2 ∷ [];
  expires_in = 60;
  refresh_expires_in = 600;
  user_id = subject (b'a' ∷ []);
  user = ada;
}

abbrev waiting_login : LoginAttempt
waiting_login = record canceled_login { status = Status.pending; event = false }

abbrev completed_login : LoginAttempt
completed_login = record canceled_login {
  status = Status.complete;
  token_pair = some pair;
  clerk_user = some ada;
  profile = some Value.null;
  completed_at = 170;
}

completes_login :
    (complete_found (ok pair) ada (b'a' ∷ []) Value.null 160 170 waiting_login).0
    ≡ ok completed_login
unfolding complete_found completing issued_found is_expired
completes_login = refl

complete_found-ok_example :
    (160 < waiting_login.expires_at)
    × (waiting_login.status ≢ Status.expired)
    × (waiting_login.status ≢ Status.canceled)
    × (completed_login.status ≡ Status.complete)
complete_found-ok_example =
    complete_found-ok (ok pair) ada (b'a' ∷ []) Value.null 160 170 waiting_login completed_login
      completes_login
