-- ===== src/Users/Consistent.antt =====
-- What the store of services/backend/users/service.py keeps, and the saving of profiles.
use neuralese.Prelude.{
  ℕ, ◌≡◌, refl, sym, ap, ◌∙◌, Bool, true, false, Option, none, some, String, string_eq, bytes_eq,
  bytes_beq, ◌==◌, Dict, lookup, insert, lookup-insert, lookup-insert_self, Bool-cases, ◌⊎◌, inl,
  inr, arith, either_branch,
}
use mathlib.Core.Path.{subst}
use package.text.Mathlib.TextEquality.{eq_iff}
use neuralese.Users.Service.{
  UserProfile, Principal, Owner, Users, ensure_account_defaults, save_profile, new_profile,
  with_fields, differs, refresh, create, has_name,
}

unfoldable pub owner_is : String → Option Owner → Bool
owner_is account none = false
owner_is account (some owner) = owner.account_id == account

-- Every profile is stored under its account, and its name, if it has one, is registered for the account.
pub record IsConsistent (s : Users) : Type 0 where
  pub keyed : (a : String) (p : UserProfile) → lookup a s.profiles ≡ some p → p.account_id ≡ a
  pub named :
      (a : String) (p : UserProfile)
      → lookup a s.profiles ≡ some p
      → has_name p ≡ true
      → owner_is a (lookup p.username s.usernames) ≡ true

pub some_inj : (p q : UserProfile) → some p ≡ some q → p ≡ q
some_inj p q e = cc

-- What is under a key after a profile was stored: that profile, or what was there.
pub stored-cases :
    (q p : UserProfile) (a : String) (profiles : Dict String UserProfile)
    → lookup a (insert q.account_id q profiles) ≡ some p
    → ((q.account_id ≡ a) × (q ≡ p))
      ⊎ (((q.account_id == a) ≡ false) × (lookup a profiles ≡ some p))
stored-cases q p a profiles e = elim (Bool-cases (q.account_id == a)) [
  | inl same ↦ inl (
    (eq_iff q.account_id a).0 same,
    some_inj q p (sym (lookup-insert q.account_id a q profiles ∙ rw same refl) ∙ e),
  )
  | inr other ↦ inr (other, sym (lookup-insert q.account_id a q profiles ∙ rw other refl) ∙ e)
]

pub save_profile-IsConsistent :
    (q : UserProfile) (s : Users)
    → (has_name q ≡ true → owner_is q.account_id (lookup q.username s.usernames) ≡ true)
    → IsConsistent s
    → IsConsistent (save_profile q s)
unfolding save_profile
save_profile-IsConsistent q s own h = record { keyed = key; named = name }
  where
    key :
        (a : String) (p : UserProfile)
        → lookup a (insert q.account_id q s.profiles) ≡ some p
        → p.account_id ≡ a
    key a p e = elim (stored-cases q p a s.profiles e) [
      | inl (at, same) ↦ ap (λ z. z.account_id) (sym same) ∙ at
      | inr (other, old) ↦ h.keyed a p old
    ]

    name :
        (a : String) (p : UserProfile)
        → lookup a (insert q.account_id q s.profiles) ≡ some p
        → has_name p ≡ true
        → owner_is a (lookup p.username s.usernames) ≡ true
    name a p e n = elim (stored-cases q p a s.profiles e) [
      | inl (at, same) ↦
          subst (λ b. owner_is b (lookup p.username s.usernames) ≡ true) at
            (subst
              (λ z.
                has_name z ≡ true → owner_is q.account_id (lookup z.username s.usernames) ≡ true)
              same own n)
      | inr (other, old) ↦ h.named a p old n
    ]

-- The store is consistent and holds the profile.
unfoldable pub Holds : UserProfile × Users → Type 0
Holds (p, s) = IsConsistent s × (lookup p.account_id s.profiles ≡ some p)

pub Holds-IsConsistent : (found : UserProfile × Users) → Holds found → IsConsistent found.1
unfolding Holds
Holds-IsConsistent found h = h.0

pub defaults-IsConsistent :
    (root : String) (s : Users) → IsConsistent s → IsConsistent (ensure_account_defaults root s)
unfolding ensure_account_defaults
defaults-IsConsistent root s h = record { keyed = h.keyed; named = h.named }

pub saved-Holds :
    (root : String) (q : UserProfile) (s : Users)
    → (has_name q ≡ true → owner_is q.account_id (lookup q.username s.usernames) ≡ true)
    → IsConsistent s
    → Holds (q, ensure_account_defaults root (save_profile q s))
unfolding Holds save_profile ensure_account_defaults
saved-Holds root q s own h = (
  defaults-IsConsistent root (save_profile q s) (save_profile-IsConsistent q s own h),
  lookup-insert_self q.account_id q s.profiles,
)

pub refresh-Holds :
    (root : String) (now : ℕ) (principal : Principal) (p : UserProfile) (s : Users)
    → Holds (p, s)
    → Holds (refresh root now principal p s)
unfolding Holds refresh with_fields has_name ensure_account_defaults
refresh-Holds root now principal p s (h, e) =
    either_branch Holds (differs (with_fields principal p) p)
      (saved-Holds root (record (with_fields principal p) { updated_at = now }) s (λ n. owned n) h)
      (defaults-IsConsistent root s h, e)
  where
    owned : has_name p ≡ true → owner_is p.account_id (lookup p.username s.usernames) ≡ true
    owned n = h.named p.account_id p e n

pub create-Holds :
    (account : String) (now : ℕ) (principal : Principal) (s : Users)
    → IsConsistent s
    → Holds (create account now principal s)
unfolding Holds create new_profile has_name bytes_beq
create-Holds account now principal s h =
    saved-Holds account (new_profile account now principal) s (λ n. absurd (ground (arith, n))) h
