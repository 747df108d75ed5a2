-- ===== src/Auth/Lifecycle.antt =====
-- What each method does to the login it works on: the states that a login of services/backend/auth/attempts.py goes through.
use neuralese.Prelude.{
  ℕ, ◌<◌, ◌≡◌, ◌≢◌, refl, Bool, true, false, not, ◌&&◌, ◌||◌, some, string_eq, leb, if◌then◌else◌,
  Result, ok, err, either_branch, arith,
}
use neuralese.Python.Values.{Value}
use neuralese.Auth.Tokens.{Text, is_empty, AuthError, ClerkUser, TokenPair}
use neuralese.Auth.Attempts.{
  Status, pending, expired, username_required, canceled, signed_out, complete, is_pending,
  is_expired_status, LoginAttempt, attempt_expired, is_expired, set_status, expire_if_due, Answer,
  cancel_found, signed_out_found, issued_found, completing, complete_found,
}

-- The changes of status that there are.
pub data Change : Status → Status → Type 0 where
  same : {s : Status} → Change s s
  expire : {s : Status} → Change s expired
  cancels : Change pending canceled
  signs_out : Change pending signed_out
  completes : Change pending complete
  completes_later : Change signed_out complete

-- A waiter is woken exactly when the attempt is no longer pending, and a completed one has tokens.
pub record IsSettled (a : LoginAttempt) : Type 0 where
  pub woken : a.event ≡ not (is_pending a.status)
  pub tokens : a.status ≡ complete → (pair : TokenPair) × (a.token_pair ≡ some pair)

-- What every operation does to the attempt it works on.
pub record Keeps (a b : LoginAttempt) : Type 0 where
  pub change : Change a.status b.status
  pub settled : IsSettled a → IsSettled b

Keeps-same : (a : LoginAttempt) → Keeps a a
Keeps-same a = record { change = same; settled = λ s. s }

Keeps-expired : (a : LoginAttempt) → Keeps a (set_status expired a)
unfolding set_status
Keeps-expired a = record {
  change = expire;
  settled = λ s. record { woken = refl; tokens = λ e. absurd (ground (arith, e)) };
}

pub expire_if_due-Keeps : (a : LoginAttempt) (now : ℕ) → Keeps a (expire_if_due now a)
unfolding expire_if_due
expire_if_due-Keeps a now =
    either_branch (Keeps a) (is_pending a.status && is_expired a now) (Keeps-expired a)
      (Keeps-same a)

module _ (a : LoginAttempt) where
  settles :
      (s : Status)
      → a.status ≡ pending
      → Change pending s
      → s ≢ complete
      → is_pending s ≡ false
      → Keeps a (set_status s a)
  unfolding set_status
  settles s e c n p = record {
    change = rw e c;
    settled = λ w. record { woken = rw p refl; tokens = λ d. absurd (n d) };
  }

  leaves_pending :
      (s : Status)
      → Change pending s
      → s ≢ complete
      → is_pending s ≡ false
      → Keeps a (if is_pending a.status then set_status s a else a)
  leaves_pending s c n p = go a.status refl
    where
      go : (t : Status) → a.status ≡ t → Keeps a (if is_pending t then set_status s a else a)
      go pending e = settles s e c n p
      go expired e = Keeps-same a
      go canceled e = Keeps-same a
      go signed_out e = Keeps-same a
      go complete e = Keeps-same a

  pub cancel_found-Keeps : (verified : Bool) → Keeps a ((cancel_found verified a).1)
  unfolding cancel_found
  cancel_found-Keeps true = leaves_pending canceled cancels (λ e. absurd (ground (arith, e))) refl
  cancel_found-Keeps false = Keeps-same a

  pub signed_out_found-Keeps : Keeps a ((signed_out_found a).1)
  unfolding signed_out_found
  signed_out_found-Keeps =
      leaves_pending signed_out signs_out (λ e. absurd (ground (arith, e))) refl

module _ (issued : Result AuthError TokenPair) (user : ClerkUser) (username : Text)
    (profile : Value) where
  issued_found-Keeps :
      (now : ℕ) (a : LoginAttempt)
      → Change a.status complete
      → Keeps a ((issued_found issued user profile now a).1)
  unfolding issued_found
  issued_found-Keeps now a c = go issued
    where
      go : (r : Result AuthError TokenPair) → Keeps a ((issued_found r user profile now a).1)
      go (err e) = Keeps-same a
      go (ok pair) = record {
        change = c;
        settled = λ w. record { woken = refl; tokens = λ e. (pair, refl) };
      }

  completing-Keeps :
      (now : ℕ) (a : LoginAttempt)
      → is_expired_status a.status ≡ false
      → Keeps a ((completing a.status issued user username profile now a).1)
  unfolding completing
  completing-Keeps now a x = go a.status refl
    where
      finishes :
          Change a.status complete
          → Keeps a (
              (if is_empty username
                then (err username_required, a)
                else issued_found issued user profile now a).1)
      finishes c =
          either_branch (λ (r : Answer × LoginAttempt). Keeps a (r.1)) (is_empty username)
            (Keeps-same a) (issued_found-Keeps now a c)

      go :
          (s : Status)
          → a.status ≡ s
          → Keeps a ((completing s issued user username profile now a).1)
      go pending e = finishes (rw e completes)
      go expired e = absurd (ground (arith, e, x))
      go canceled e = Keeps-same a
      go signed_out e = finishes (rw e completes_later)
      go complete e = Keeps-same a

  pub complete_found-Keeps :
      (checked now : ℕ) (a : LoginAttempt)
      → Keeps a ((complete_found issued user username profile checked now a).1)
  unfolding complete_found
  complete_found-Keeps checked now a = go (is_expired_status a.status) refl
    where
      go :
          (b : Bool)
          → is_expired_status a.status ≡ b
          → Keeps a (
              (if b || is_expired a checked
                then (err attempt_expired, set_status expired a)
                else completing a.status issued user username profile now a).1)
      go true e = Keeps-expired a
      go false e =
          either_branch (λ (r : Answer × LoginAttempt). Keeps a (r.1)) (is_expired a checked)
            (Keeps-expired a) (completing-Keeps now a e)

  completing-ok :
      (t : Status) (now : ℕ) (a b : LoginAttempt)
      → a.status ≡ t
      → (completing t issued user username profile now a).0 ≡ ok b
      → (t ≢ canceled) × (b.status ≡ complete)
  unfolding completing issued_found
  completing-ok pending now a b e h = ground (arith, h)
  completing-ok expired now a b e h = ground (arith, h)
  completing-ok canceled now a b e h = absurd (ground (arith, h))
  completing-ok signed_out now a b e h = ground (arith, h)
  completing-ok complete now a b e h = ground (arith, h, e)

  -- An answer with the attempt comes only before the deadline, for a login neither canceled nor
  -- expired, and the attempt is complete.
  pub complete_found-ok :
      (checked now : ℕ) (a b : LoginAttempt)
      → (complete_found issued user username profile checked now a).0 ≡ ok b
      → (checked < a.expires_at)
        × (a.status ≢ expired)
        × (a.status ≢ canceled)
        × (b.status ≡ complete)
  unfolding complete_found is_expired
  complete_found-ok checked now a b h =
      go (is_expired_status a.status) (leb a.expires_at checked) refl refl h
    where
      go :
          (x y : Bool)
          → is_expired_status a.status ≡ x
          → leb a.expires_at checked ≡ y
          → (if x || y
              then (err attempt_expired, set_status expired a)
              else completing a.status issued user username profile now a).0
            ≡ ok b
          → (checked < a.expires_at)
            × (a.status ≢ expired)
            × (a.status ≢ canceled)
            × (b.status ≡ complete)
      go true y e d h = absurd (ground (arith, h))
      go false true e d h = absurd (ground (arith, h))
      go false false e d h =
          let (n, c) = completing-ok a.status now a b refl h in
          (ground (arith, d), (λ x. ground (arith, x, e)), n, c)
