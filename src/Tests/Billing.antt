-- ===== src/Tests/Billing.antt =====
-- Licenses of services/backend/billing/service.py.
use neuralese.Prelude.{ℕ, ◌≡◌, refl, true, false, some, [], ◌∷◌, bytes_eq, bytes_beq, lookup}
use neuralese.Python.Values.{end}
use neuralese.Billing.Service.{Binding, Billing, deactivate_by_sale_id, entitlement_status}
use neuralese.Billing.Deactivation.{deactivate_by_sale_id-entitlement_status}

abbrev license : ℕ → Binding
license n = record {
  account_id = b'a' ∷ [];
  license_hash = n ∷ [];
  sale_id = n ∷ [];
  buyer_email = [];
  product_id = [];
  product_permalink = [];
  active = true;
  sale = end;
  updated_at = n;
}

-- An account with two licenses, the newer of which is its entitlement.
abbrev billing : Billing
billing = record {
  licenses = (1 ∷ [], license 1) ∷ (2 ∷ [], license 2) ∷ [];
  entitlements = (b'a' ∷ [], license 2) ∷ [];
  events = [];
}

found_license : lookup (1 ∷ []) billing.licenses ≡ some (license 1)
unfolding bytes_beq
found_license = refl

deactivate_by_sale_id-entitlement_status_example :
    (entitlement_status (b'a' ∷ []) (deactivate_by_sale_id (1 ∷ []) 9 billing)).0 ≡ false
deactivate_by_sale_id-entitlement_status_example =
    deactivate_by_sale_id-entitlement_status (1 ∷ []) 9 billing (1 ∷ []) (license 1) found_license
      (unfold bytes_beq in refl) refl
