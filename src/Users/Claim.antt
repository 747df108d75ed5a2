-- ===== src/Users/Claim.antt =====
-- The claim of a username, services/backend/users/service.py.
use neuralese.Prelude.{
  ℕ, ◌≡◌, refl, sym, ap, ◌∙◌, Bool, true, false, not, ◌&&◌, Option, none, some, String, string_eq,
  bytes_eq, bytes_beq_iff, ◌==◌, if◌then◌else◌, Dict, lookup, insert, erase, lookup-insert,
  lookup-insert_self, lookup-erase, Bool-cases, inl, inr, arith,
}
use mathlib.Core.Path.{subst}
use package.text.Mathlib.TextEquality.{eq_iff}
use neuralese.Users.Names.{Text, AccountType}
use neuralese.Users.Service.{
  UserProfile, Owner, Users, save_profile, has_other_owner, is_taken, has_name, store_claim,
  claim_free,
}
use neuralese.Users.Consistent.{owner_is, IsConsistent, stored-cases, Holds}

pub owner_is-one :
    (a b : String) (o : Option Owner) → owner_is a o ≡ true → owner_is b o ≡ true → a ≡ b
unfolding owner_is
owner_is-one a b none h k = absurd (ground (arith, h))
owner_is-one a b (some owner) h k =
    sym ((eq_iff owner.account_id a).0 h) ∙ (eq_iff owner.account_id b).0 k

pub free_owner :
    (p : UserProfile) (a : String) (o : Option Owner)
    → has_other_owner p o ≡ false
    → owner_is a o ≡ true
    → p.account_id ≡ a
unfolding owner_is has_other_owner
free_owner p a none free h = absurd (ground (arith, h))
free_owner p a (some owner) free h =
    ground (arith, free, h, eq_iff owner.account_id p.account_id, eq_iff owner.account_id a)

-- The name of another account survives a claim.
pub other_kept :
    (name v : Text) (a : String) (o : Owner) (p : UserProfile) (names : Dict Text Owner)
    (drops : Bool)
    → has_other_owner p (lookup name names) ≡ false
    → (drops ≡ true → owner_is p.account_id (lookup p.username names) ≡ true)
    → (p.account_id == a) ≡ false
    → owner_is a (lookup v names) ≡ true
    → owner_is a (lookup v (insert name o (if drops then erase p.username names else names))) ≡ true
other_kept name v a o p names drops free old other h = elim (Bool-cases (name == v)) [
  | inl same ↦
      let at = (bytes_beq_iff name v).0 same in
      absurd (
        apart (
          free_owner p a (lookup v names)
            (ap (λ z. has_other_owner p (lookup z names)) (sym at) ∙ free) h))
  | inr differ ↦
      rw (lookup-insert name v o (if drops then erase p.username names else names), differ)
        (dropped drops old)
]
  where
    apart : p.account_id ≡ a → ⊥
    apart e = ground (arith, other, eq_iff p.account_id a, e)

    dropped :
        (b : Bool)
        → (b ≡ true → owner_is p.account_id (lookup p.username names) ≡ true)
        → owner_is a (lookup v (if b then erase p.username names else names)) ≡ true
    dropped false k = h
    dropped true k = elim (Bool-cases (p.username == v)) [
      | inl same ↦
          let at = (bytes_beq_iff p.username v).0 same in
          absurd (
            apart (
              owner_is-one p.account_id a (lookup v names)
                (ap (λ z. owner_is p.account_id (lookup z names)) (sym at) ∙ k refl) h))
      | inr differ ↦ rw (lookup-erase p.username v names, differ) h
    ]

-- The claim of a name that is free or the account's own.
pub store_claim-IsConsistent :
    (name : Text) (kind : AccountType) (now : ℕ) (p : UserProfile) (s : Users)
    → Holds (p, s)
    → is_taken name p s ≡ false
    → IsConsistent (store_claim name kind now p s).1
unfolding Holds is_taken store_claim save_profile owner_is
store_claim-IsConsistent name kind now p s (h, e) free = record { keyed = key; named = own }
  where
    q : UserProfile
    q = record p { username = name; kind = kind; updated_at = now }

    key :
        (a : String) (r : UserProfile)
        → lookup a (insert q.account_id q s.profiles) ≡ some r
        → r.account_id ≡ a
    key a r f = elim (stored-cases q r a s.profiles f) [
      | inl (at, same) ↦ ap (λ z. z.account_id) (sym same) ∙ at
      | inr (other, old) ↦ h.keyed a r old
    ]

    own :
        (a : String) (r : UserProfile)
        → lookup a (insert q.account_id q s.profiles) ≡ some r
        → has_name r ≡ true
        → owner_is a (lookup r.username ((store_claim name kind now p s).1).usernames) ≡ true
    own a r f n = elim (stored-cases q r a s.profiles f) [
      | inl (at, same) ↦
          subst
            (λ z.
              owner_is a (lookup z.username ((store_claim name kind now p s).1).usernames) ≡ true)
            same
            (rw
              (lookup-insert_self name (record { account_id = p.account_id; user_id = p.user_id })
                (if has_name p && not (p.username == name)
                  then erase p.username s.usernames
                  else s.usernames))
              ((eq_iff p.account_id a).1 at))
      | inr (other, old) ↦
          other_kept name r.username a _ p s.usernames _ free
            (λ d. h.named p.account_id p e (ground (arith, d))) other (h.named a r old n)
    ]

pub claim_free-IsConsistent :
    (name : Text) (kind : AccountType) (now : ℕ) (found : UserProfile × Users)
    → Holds found
    → IsConsistent (claim_free name kind now found).1
unfolding claim_free Holds
claim_free-IsConsistent name kind now (p, s) h = elim (Bool-cases (is_taken name p s)) [
  | inl taken ↦ rw taken h.0
  | inr free ↦ rw free (store_claim-IsConsistent name kind now p s h free)
]
