-- ===== src/Auth/Runs.antt =====
-- Whatever calls reach the store of services/backend/auth/attempts.py, in whatever order.
use neuralese.Prelude.{
  ℕ, ◌≡◌, ◌≢◌, refl, sym, ap, ◌∙◌, Bool, true, false, Option, none, some, List, [], ◌∷◌, any, ◌||◌,
  String, string_eq, ◌==◌, if◌then◌else◌, lookup, insert, lookup-insert, Result, err, arith,
}
use mathlib.Core.Path.{subst}
use text.Mathlib.TextEquality.{eq_iff}
use neuralese.Python.Values.{Value}
use neuralese.Auth.Tokens.{Text, AuthError, ClerkUser, TokenPair}
use neuralese.Auth.Attempts.{
  Status, expired, canceled, LoginAttempt, AttemptStore, Answer, expire_if_due, get, with_attempt,
  cancel_found, signed_out_found, complete_found, not_found, create, verify_device_secret, cancel,
  signed_out_attempt, complete_attempt,
}
use neuralese.Auth.Lifecycle.{
  Change, same, expire, cancels, signs_out, completes, completes_later, Keeps, IsSettled,
  expire_if_due-Keeps, cancel_found-Keeps, signed_out_found-Keeps, complete_found-Keeps,
}

some_inj : {A : Type 0} {a b : A} → some a ≡ some b → a ≡ b
some_inj h = cc

-- A property that a change of an attempt keeps holds of all the attempts of a store.
module _ (P : String → LoginAttempt → Type 0)
    (keeps : (id : String) (a b : LoginAttempt) → Keeps a b → P id a → P id b) where
  pub AllAt : AttemptStore → Type 0
  AllAt store = (id : String) (a : LoginAttempt) → lookup id store ≡ some a → P id a

  insert-AllAt :
      (id : String) (a : LoginAttempt) (store : AttemptStore)
      → AllAt store
      → P id a
      → AllAt (insert id a store)
  unfolding AllAt
  insert-AllAt id a store s k j b h = go (id == j) refl (sym (lookup-insert id j a store) ∙ h)
    where
      go : (t : Bool) → (id == j) ≡ t → (if t then some a else lookup j store) ≡ some b → P j b
      go true d e =
          let same_id : id ≡ j = ground (arith, d, eq_iff id j) in
          subst (P j) (some_inj e) (subst (λ (i : String). P i a) same_id k)
      go false d e = s j b e

  get-AllAt :
      (id : String) (now : ℕ) (store : AttemptStore)
      → AllAt store
      → ((a : LoginAttempt) → (get id now store).0 ≡ some a → P id a) × AllAt ((get id now store).1)
  unfolding get AllAt
  get-AllAt id now store s = go (lookup id store) refl
    where
      Got : Option LoginAttempt × AttemptStore → Type 0
      Got r = ((a : LoginAttempt) → r.0 ≡ some a → P id a) × AllAt (r.1)

      go :
          (o : Option LoginAttempt)
          → lookup id store ≡ o
          → Got (elim o as (λ _. Option LoginAttempt × AttemptStore) [
            | none ↦ (none, store)
            | some a ↦ (some (expire_if_due now a), insert id (expire_if_due now a) store)
          ])
      go none e = ((λ a h. absurd (ground (arith, h))), s)
      go (some a) e =
          let p : P id (expire_if_due now a) =
            keeps id a (expire_if_due now a) (expire_if_due-Keeps a now) (s id a e) in
          ((λ b h. subst (P id) (some_inj h) p), insert-AllAt id (expire_if_due now a) store s p)

  with_attempt-AllAt :
      (f : LoginAttempt → Answer × LoginAttempt)
      → ((a : LoginAttempt) → Keeps a ((f a).1))
      → (id : String) (now : ℕ) (store : AttemptStore) → AllAt store
      → AllAt ((with_attempt f id now store).1)
  unfolding with_attempt
  with_attempt-AllAt f k id now store s =
      let (p, t) = get-AllAt id now store s in go ((get id now store).0) p ((get id now store).1) t
    where
      go :
          (o : Option LoginAttempt)
          → ((a : LoginAttempt) → o ≡ some a → P id a)
          → (store : AttemptStore) → AllAt store
          → AllAt
              ((elim o as (λ _. AttemptStore → Answer × AttemptStore) [
                | none ↦ λ store. (err not_found, store)
                | some a ↦ λ store. ((f a).0, insert id (f a).1 store)
              ])
                store).1
      go none p store t = t
      go (some a) p store t =
          insert-AllAt id ((f a).1) store t (keeps id a ((f a).1) (k a) (p a refl))

-- The calls of the store's methods, with the clock's readings and the values drawn.
pub data Call : Type 0 where
  creates : String → String → ℕ → ℕ → ℕ → Call
  gets : String → ℕ → Call
  cancels_with : String → String → ℕ → Call
  reports_signed_out : String → ℕ → Call
  completes_with : Result AuthError TokenPair → ClerkUser → Text → Value → String → ℕ → ℕ → ℕ → Call

unfoldable pub is_creation_of : String → Call → Bool
is_creation_of id (creates j secret created expires_from ttl) = j == id
is_creation_of id _ = false

module _ (hash_secret : String → String) where
  unfoldable pub perform : Call → AttemptStore → AttemptStore
  perform (creates id secret created expires_from ttl) store =
      (create hash_secret id secret created expires_from ttl store).1
  perform (gets id now) store = (get id now store).1
  perform (cancels_with id secret now) store = (cancel hash_secret id secret now store).1
  perform (reports_signed_out id now) store = (signed_out_attempt id now store).1
  perform (completes_with issued user username profile id got checked now) store =
      (complete_attempt issued user username profile id got checked now store).1

  unfoldable pub perform_all : List Call → AttemptStore → AttemptStore
  perform_all [] store = store
  perform_all (c ∷ calls) store = perform_all calls (perform c store)

  module _ (P : String → LoginAttempt → Type 0)
      (keeps : (id : String) (a b : LoginAttempt) → Keeps a b → P id a → P id b) where
    perform-AllAt :
        (c : Call) (store : AttemptStore)
        → ((id secret : String) (created expires_from ttl : ℕ)
            → c ≡ creates id secret created expires_from ttl
            → P id (create hash_secret id secret created expires_from ttl store).0)
        → AllAt P keeps store
        → AllAt P keeps (perform c store)
    unfolding perform create cancel signed_out_attempt complete_attempt
    perform-AllAt (creates id secret created expires_from ttl) store n s =
        insert-AllAt P keeps id ((create hash_secret id secret created expires_from ttl store).0)
          store s (n id secret created expires_from ttl refl)
    perform-AllAt (gets id now) store n s = (get-AllAt P keeps id now store s).1
    perform-AllAt (cancels_with id secret now) store n s =
        with_attempt-AllAt P keeps (λ a. cancel_found (verify_device_secret hash_secret a secret) a)
          (λ a. cancel_found-Keeps a (verify_device_secret hash_secret a secret)) id now store s
    perform-AllAt (reports_signed_out id now) store n s =
        with_attempt-AllAt P keeps signed_out_found signed_out_found-Keeps id now store s
    perform-AllAt (completes_with issued user username profile id got checked now) store n s =
        with_attempt-AllAt P keeps (complete_found issued user username profile checked now)
          (complete_found-Keeps issued user username profile checked now) id got store s

  perform_all-IsSettled :
      (calls : List Call) (store : AttemptStore)
      → AllAt (λ id a. IsSettled a) (λ id a b k s. k.settled s) store
      → AllAt (λ id a. IsSettled a) (λ id a b k s. k.settled s) (perform_all calls store)
  unfolding perform_all create
  perform_all-IsSettled [] store s = s
  perform_all-IsSettled (c ∷ calls) store s = perform_all-IsSettled calls (perform c store) (
      perform-AllAt (λ id a. IsSettled a) (λ id a b k s. k.settled s) c store
        (λ id secret created expires_from ttl e.
          created_IsSettled id secret created expires_from ttl store)
        s)
    where
      created_IsSettled :
          (id secret : String) (created expires_from ttl : ℕ) (store : AttemptStore)
          → IsSettled (create hash_secret id secret created expires_from ttl store).0
      created_IsSettled id secret created expires_from ttl store = record {
        woken = refl;
        tokens = λ e. absurd (ground (arith, e));
      }

  -- Whatever was called, in whatever order and at whatever times, a login's waiter is woken exactly
  -- when the login is no longer pending, and a login that is complete has its tokens.
  pub run-IsSettled :
      (calls : List Call) (id : String) (a : LoginAttempt)
      → lookup id (perform_all calls []) ≡ some a
      → IsSettled a
  unfolding AllAt
  run-IsSettled calls = perform_all-IsSettled calls [] (λ id a h. absurd (ground (arith, h)))

-- Canceled, or past its deadline.
unfoldable pub is_dead : Status → Bool
is_dead expired = true
is_dead canceled = true
is_dead _ = false

Change-dead : {s t : Status} → Change s t → is_dead s ≡ true → is_dead t ≡ true
unfolding is_dead
Change-dead same d = d
Change-dead expire d = refl
Change-dead cancels d = absurd (ground (arith, d))
Change-dead signs_out d = absurd (ground (arith, d))
Change-dead completes d = absurd (ground (arith, d))
Change-dead completes_later d = absurd (ground (arith, d))

module _ (hash_secret : String → String) (id : String) where
  Dead : String → LoginAttempt → Type 0
  Dead k a = k ≡ id → is_dead a.status ≡ true

  Dead-keeps : (k : String) (a b : LoginAttempt) → Keeps a b → Dead k a → Dead k b
  unfolding Dead
  Dead-keeps k a b s d e = Change-dead s.change (d e)

  perform_all-Dead :
      (calls : List Call) (store : AttemptStore)
      → any (is_creation_of id) calls ≡ false
      → AllAt Dead Dead-keeps store
      → AllAt Dead Dead-keeps (perform_all hash_secret calls store)
  unfolding perform_all is_creation_of Dead
  perform_all-Dead [] store n s = s
  perform_all-Dead (c ∷ calls) store n s =
      perform_all-Dead calls (perform hash_secret c store)
        (or_right (is_creation_of id c) (any (is_creation_of id) calls) n)
        (perform-AllAt hash_secret Dead Dead-keeps c store
          (λ i secret created expires_from ttl e same_id. absurd (
            not_created c i secret created expires_from ttl e same_id
              (or_left (is_creation_of id c) (any (is_creation_of id) calls) n)))
          s)
    where
      or_right : (x y : Bool) → (x || y) ≡ false → y ≡ false
      or_right x y h = ground (arith, h)

      or_left : (x y : Bool) → (x || y) ≡ false → x ≡ false
      or_left x y h = ground (arith, h)

      not_created :
          (c : Call) (i secret : String) (created expires_from ttl : ℕ)
          → c ≡ creates i secret created expires_from ttl
          → i ≡ id
          → is_creation_of id c ≢ false
      not_created c i secret created expires_from ttl e same_id f =
          let g : (i == id) ≡ false = sym (ap (is_creation_of id) e) ∙ f in
          ground (arith, g, eq_iff i id, same_id)

  -- A login that was canceled or has expired is never completed by any later calls, unless one of
  -- them makes a new login of the same id.
  pub perform_all-dead :
      (calls : List Call) (store : AttemptStore) (a b : LoginAttempt)
      → any (is_creation_of id) calls ≡ false
      → lookup id store ≡ some a
      → is_dead a.status ≡ true
      → lookup id (perform_all hash_secret calls store) ≡ some b
      → is_dead b.status ≡ true
  unfolding AllAt Dead
  perform_all-dead calls store a b n h d k =
      perform_all-Dead calls store n
        (λ i c e same_id.
          subst (λ (x : LoginAttempt). is_dead x.status ≡ true)
            (some_inj (sym h ∙ subst (λ (j : String). lookup j store ≡ some c) same_id e)) d)
        id b k refl
