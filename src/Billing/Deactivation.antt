-- ===== src/Billing/Deactivation.antt =====
-- What a refund does: `deactivate_by_sale_id` of services/backend/billing/service.py.
use neuralese.Prelude.{
  ℕ, ◌≡◌, refl, ◌∙◌, Bool, true, false, ◌&&◌, not, some, [], ◌∷◌, bytes_eq, ◌==◌, if◌then◌else◌,
  Dict, lookup, insert, lookup-insert, All, Bool-cases, inl, inr, arith, beq_self,
}
use mathlib.Core.Path.{subst}
use neuralese.Billing.Service.{
  Text, is_empty, Binding, Billing, deactivated, entitle, deactivate_licenses,
  deactivate_by_sale_id, entitlement_status,
}

some_inj : (a b : Binding) → some a ≡ some b → b ≡ a
some_inj a b h = cc

module _ (sale : Text) (now : ℕ) where
  -- A binding of the sale is not active.
  IsOff : Binding → Type 0
  IsOff b = (b.sale_id == sale) ≡ true → b.active ≡ false

  deactivated-IsOff : (b : Binding) → IsOff (deactivated sale now b)
  unfolding deactivated IsOff
  deactivated-IsOff b = elim (Bool-cases (b.sale_id == sale)) [
    | inl e ↦ simp e (λ s. refl)
    | inr e ↦ simp e (λ s. ground (arith, s, e))
  ]

  deactivate_licenses-IsOff :
      (licenses entitlements : Dict Text Binding)
      → All
          (λ (p : Text × Binding). IsOff (p.1))
          ((deactivate_licenses sale now licenses entitlements).0)
  unfolding deactivate_licenses
  deactivate_licenses-IsOff [] entitlements = tt
  deactivate_licenses-IsOff ((license, b) ∷ licenses) entitlements = (
    deactivated-IsOff b,
    deactivate_licenses-IsOff licenses (entitle sale (deactivated sale now b) entitlements),
  )

module _ (sale : Text) (now : ℕ) (account : Text) where
  -- The account's entitlement is there and not active.
  IsDenied : Dict Text Binding → Type 0
  IsDenied entitlements =
      (e : Binding) × (lookup account entitlements ≡ some e) × (e.active ≡ false)

  insert-IsDenied :
      (b : Binding) (entitlements : Dict Text Binding)
      → b.active ≡ false
      → IsDenied entitlements
      → IsDenied (insert b.account_id b entitlements)
  unfolding IsDenied
  insert-IsDenied b entitlements off (e, found, denied) =
      elim (Bool-cases (b.account_id == account)) [
        | inl same ↦ (b, lookup-insert b.account_id account b entitlements ∙ rw same refl, off)
        | inr other ↦
            (e, lookup-insert b.account_id account b entitlements ∙ rw other found, denied)
      ]

  entitle-IsDenied :
      (b : Binding) (entitlements : Dict Text Binding)
      → IsOff sale now b
      → IsDenied entitlements
      → IsDenied (entitle sale b entitlements)
  unfolding entitle IsOff
  entitle-IsDenied b entitlements off d = go (b.sale_id == sale) off (not (is_empty b.account_id))
    where
      go :
          (x : Bool)
          → (x ≡ true → b.active ≡ false)
          → (y : Bool)
          → IsDenied (if x && y then insert b.account_id b entitlements else entitlements)
      go true off true = insert-IsDenied b entitlements (off refl) d
      go true off false = d
      go false off y = d

  deactivate_licenses-IsDenied :
      (licenses entitlements : Dict Text Binding)
      → IsDenied entitlements
      → IsDenied ((deactivate_licenses sale now licenses entitlements).1)
  unfolding deactivate_licenses
  deactivate_licenses-IsDenied [] entitlements d = d
  deactivate_licenses-IsDenied ((license, b) ∷ licenses) entitlements d =
      deactivate_licenses-IsDenied licenses (entitle sale (deactivated sale now b) entitlements)
        (entitle-IsDenied (deactivated sale now b) entitlements (deactivated-IsOff sale now b) d)

  entitle_hit :
      (b : Binding) (entitlements : Dict Text Binding)
      → (b.sale_id == sale) ≡ true
      → b.account_id ≡ account
      → is_empty account ≡ false
      → IsDenied (entitle sale (deactivated sale now b) entitlements)
  unfolding entitle deactivated IsDenied
  entitle_hit b entitlements hit own named =
      let off : Binding = record b { account_id = account; active = false; updated_at = now } in
      (
        off,
        simp hit (
            rw own (
              rw named
                (lookup-insert account account off entitlements ∙ rw (beq_self account) refl))),
        refl,
      )

  reaches :
      (license : Text) (b : Binding) (licenses entitlements : Dict Text Binding)
      → lookup license licenses ≡ some b
      → (b.sale_id == sale) ≡ true
      → b.account_id ≡ account
      → is_empty account ≡ false
      → IsDenied ((deactivate_licenses sale now licenses entitlements).1)
  unfolding deactivate_licenses
  reaches license b [] entitlements found hit own named = absurd (ground (arith, found))
  reaches license b ((l, c) ∷ licenses) entitlements found hit own named =
      go (reaches license b licenses (entitle sale (deactivated sale now c) entitlements))
        (l == license) found
    where
      go :
          (lookup license licenses ≡ some b
            → (b.sale_id == sale) ≡ true
            → b.account_id ≡ account
            → is_empty account ≡ false
            → IsDenied (
                (deactivate_licenses sale now licenses
                  (entitle sale (deactivated sale now c) entitlements)).1))
          → (x : Bool) → (if x then some c else lookup license licenses) ≡ some b
          → IsDenied (
              (deactivate_licenses sale now licenses
                (entitle sale (deactivated sale now c) entitlements)).1)
      go rest false found = rest found hit own named
      go rest true found =
          let same : b ≡ c = some_inj c b found in
          deactivate_licenses-IsDenied licenses (entitle sale (deactivated sale now c) entitlements)
            (subst (λ (x : Binding). IsDenied (entitle sale (deactivated sale now x) entitlements))
              same (entitle_hit b entitlements hit own named))

-- After a sale is deactivated, no license of the sale is active.
pub deactivate_by_sale_id-licenses :
    (sale : Text) (now : ℕ) (b : Billing)
    → All
        (λ (p : Text × Binding). (p.1.sale_id == sale) ≡ true → p.1.active ≡ false)
        (deactivate_by_sale_id sale now b).licenses
unfolding deactivate_by_sale_id IsOff
deactivate_by_sale_id-licenses sale now b =
    deactivate_licenses-IsOff sale now b.licenses b.entitlements

-- Deactivating a sale leaves the account of each of its licenses without an active entitlement,
-- whatever the entitlement was before, one from another sale included.
pub deactivate_by_sale_id-entitlement_status :
    (sale : Text) (now : ℕ) (b : Billing) (license : Text) (binding : Binding)
    → lookup license b.licenses ≡ some binding
    → (binding.sale_id == sale) ≡ true
    → is_empty binding.account_id ≡ false
    → (entitlement_status binding.account_id (deactivate_by_sale_id sale now b)).0 ≡ false
unfolding deactivate_by_sale_id entitlement_status IsDenied
deactivate_by_sale_id-entitlement_status sale now b license binding found hit named =
    let (e, there, off) =
      reaches sale now binding.account_id license binding b.licenses b.entitlements found hit refl
        named in
    rw there off
