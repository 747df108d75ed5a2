-- ===== src/Users/Unique.antt =====
-- Usernames of services/backend/users/service.py belong to one account each.
use neuralese.Prelude.{
  ℕ, ◌≡◌, refl, sym, ap, ◌∙◌, true, not, some, List, [], ◌∷◌, String, string_eq, bytes_eq, ◌==◌,
  lookup, Option-cases, ◌⊎◌, inl, inr, arith, Result, ok, err,
}
use mathlib.Core.Path.{subst}
use neuralese.Users.Names.{Text, UserError, validate_username, normalize_account_type}
use neuralese.Users.Service.{
  UserProfile, Principal, Users, Request, sign_in, claim, ask, has_name,
  get_or_create_from_principal, claim_username, username_available, serve, serve_all,
}
use neuralese.Users.Consistent.{
  owner_is, IsConsistent, Holds, Holds-IsConsistent, refresh-Holds, create-Holds,
}
use neuralese.Users.Claim.{owner_is-one, claim_free-IsConsistent}

module _ (account_id_for : String → String) where
  get_or_create-Holds :
      (now : ℕ) (principal : Principal) (s : Users)
      → IsConsistent s
      → Holds (get_or_create_from_principal account_id_for now principal s)
  unfolding get_or_create_from_principal Holds
  get_or_create-Holds now principal s h =
      elim (Option-cases (lookup (account_id_for principal.user_id) s.profiles)) [
        | inl e ↦ rw e (create-Holds (account_id_for principal.user_id) now principal s h)
        | inr (p, e) ↦
            rw e (refresh-Holds (account_id_for p.user_id) now principal p s (stored p e))
      ]
    where
      stored :
          (p : UserProfile)
          → lookup (account_id_for principal.user_id) s.profiles ≡ some p
          → Holds (p, s)
      stored p e = (
        h,
        subst (λ a. lookup a s.profiles ≡ some p)
            (sym (h.keyed (account_id_for principal.user_id) p e)) e,
      )

  Result-cases :
      (r : Result UserError Text)
      → ((x : UserError) × (r ≡ err x)) ⊎ ((name : Text) × (r ≡ ok name))
  Result-cases (err x) = inl (x, refl)
  Result-cases (ok name) = inr (name, refl)

  claim_username-IsConsistent :
      (now : ℕ) (principal : Principal) (username kind : Text) (s : Users)
      → IsConsistent s
      → IsConsistent (claim_username account_id_for now principal username kind s).1
  unfolding claim_username
  claim_username-IsConsistent now principal username kind s h =
      elim (Result-cases (validate_username username)) [
        | inl (x, e) ↦ rw e h
        | inr (name, e) ↦ rw e (
            claim_free-IsConsistent name (normalize_account_type kind) now _
              (get_or_create-Holds now principal s h))
      ]

  username_available-IsConsistent :
      (now : ℕ) (principal : Principal) (username : Text) (s : Users)
      → IsConsistent s
      → IsConsistent (username_available account_id_for now principal username s).1
  unfolding username_available
  username_available-IsConsistent now principal username s h =
      elim (Result-cases (validate_username username)) [
        | inl (x, e) ↦ rw e h
        | inr (name, e) ↦ rw e (Holds-IsConsistent _ (get_or_create-Holds now principal s h))
      ]

  serve-IsConsistent :
      (now : ℕ) (request : Request) (s : Users)
      → IsConsistent s
      → IsConsistent (serve account_id_for now request s)
  unfolding serve
  serve-IsConsistent now (sign_in principal) s h =
      Holds-IsConsistent _ (get_or_create-Holds now principal s h)
  serve-IsConsistent now (claim principal username kind) s h =
      claim_username-IsConsistent now principal username kind s h
  serve-IsConsistent now (ask principal username) s h =
      username_available-IsConsistent now principal username s h

  serve_all-IsConsistent :
      (requests : List (ℕ × Request)) (s : Users)
      → IsConsistent s
      → IsConsistent (serve_all account_id_for requests s)
  unfolding serve_all
  serve_all-IsConsistent [] s h = h
  serve_all-IsConsistent ((now, request) ∷ requests) s h =
      serve_all-IsConsistent requests (serve account_id_for now request s)
        (serve-IsConsistent now request s h)

abbrev pub no_users : Users
no_users = record { profiles = []; usernames = []; documents = [] }

empty-IsConsistent : IsConsistent no_users
empty-IsConsistent = record {
  keyed = λ a p e. absurd (ground (arith, e));
  named = λ a p e n. absurd (ground (arith, e));
}

-- After any requests to an empty store, two profiles with the same username, which is not empty, belong to
-- the same account.
pub serve_all_unique :
    (account_id_for : String → String) (requests : List (ℕ × Request)) (a b : String)
    (p q : UserProfile)
    → lookup a (serve_all account_id_for requests no_users).profiles ≡ some p
    → lookup b (serve_all account_id_for requests no_users).profiles ≡ some q
    → has_name p ≡ true
    → p.username ≡ q.username
    → a ≡ b
unfolding has_name
serve_all_unique account_id_for requests a b p q e f n same =
    let s = serve_all account_id_for requests no_users in
    let h = serve_all-IsConsistent account_id_for requests no_users empty-IsConsistent in
    owner_is-one a b (lookup p.username s.usernames) (h.named a p e n) (
      ap (λ z. owner_is b (lookup z s.usernames)) same
      ∙ h.named b q f (ap (λ z. not (z == [])) (sym same) ∙ n))
