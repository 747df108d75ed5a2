-- ===== src/Billing/Service.antt =====
-- `BillingService` of services/backend/billing/service.py. The documents under its three kinds of path are
-- three dictionaries. Texts are lists of bytes; what `str` makes of a value that is no text is a parameter.
use neuralese.Prelude.{
  ℕ, Bool, true, false, ◌||◌, ◌&&◌, not, Option, none, some, List, [], ◌∷◌, String, string_eq,
  bytes_eq, pair_eq, ◌==◌, if◌then◌else◌, Dict, lookup, insert, Result, ok, err,
}
use neuralese.Python.Values.{Value, Fields, text, get?, truthy}

abbrev pub Text : Type 0
Text = List ℕ

abbrev pub is_empty : Text → Bool
is_empty [] = true
is_empty (c ∷ s) = false

pub record Binding : Type 0 where
  pub account_id : Text
  pub license_hash : Text
  pub sale_id : Text
  pub buyer_email : Text
  pub product_id : Text
  pub product_permalink : Text
  pub active : Bool
  pub sale : Fields
  pub updated_at : ℕ

pub record Billing : Type 0 where
  pub licenses : Dict Text Binding
  pub entitlements : Dict Text Binding
  pub events : Dict (Text × Text) Value

pub data BillingError : Type 0 where
  already_bound : BillingError

-- `bool(purchase.get(flag))`
unfoldable pub flagged : Fields → String → Bool
flagged purchase flag = holds (get? purchase flag)
  where
    holds : Option Value → Bool
    holds none = false
    holds (some v) = truthy v

unfoldable pub purchase_is_inactive : Fields → Bool
purchase_is_inactive p =
    flagged p "refunded"
    || flagged p "disputed"
    || flagged p "chargebacked"
    || flagged p "subscription_cancelled"
    || flagged p "subscription_failed"
    || flagged p "ended"

-- `existing.get("account_id") not in ("", account_id)`
unfoldable pub bound_to_other : Text → Option Binding → Bool
bound_to_other account none = false
bound_to_other account (some b) = not (is_empty b.account_id || b.account_id == account)

module _ (repr : Value → Text) where
  unfoldable pub str : Value → Text
  str (text s) = s
  str value = repr value

  -- `str(fields.get(key) or rest)`
  unfoldable pub str_or : Fields → String → Text → Text
  str_or fields key rest = pick (get? fields key)
    where
      pick : Option Value → Text
      pick none = rest
      pick (some v) = if truthy v then str v else rest

  unfoldable pub binding_of : Text → Text → Fields → Text → Text → ℕ → Binding
  binding_of account license sale product permalink now = record {
    account_id = account;
    license_hash = license;
    sale_id = str_or sale "id" (str_or sale "sale_id" license);
    buyer_email = str_or sale "email" [];
    product_id = if is_empty product then str_or sale "product_id" [] else product;
    product_permalink = permalink;
    active = not (purchase_is_inactive sale);
    sale = sale;
    updated_at = now;
  }

  unfoldable pub bind_gumroad_license :
      Text → Text → Fields → Text → Text → ℕ → Billing → Result BillingError Binding × Billing
  bind_gumroad_license account license sale product permalink now b =
      let binding = binding_of account license sale product permalink now in
      if bound_to_other account (lookup license b.licenses) then (err already_bound, b) else (
        ok binding,
        record b {
          licenses = insert license binding b.licenses;
          entitlements = insert account binding b.entitlements;
        },
      )

-- `entitlement_status`: whether it is active, and the binding
unfoldable pub entitlement_status : Text → Billing → Bool × Option Binding
entitlement_status account b = found (lookup account b.entitlements)
  where
    found : Option Binding → Bool × Option Binding
    found none = (false, none)
    found (some e) = (e.active, some e)

-- `remember_event`, with the document it writes
unfoldable pub remember_event : Text → Text → Value → Billing → Bool × Billing
remember_event provider event_id document b = seen (lookup (provider, event_id) b.events)
  where
    seen : Option Value → Bool × Billing
    seen (some e) = (false, b)
    seen none = (true, record b { events = insert (provider, event_id) document b.events })

-- The body of the loop of `deactivate_by_sale_id` on one license: the binding after it, and the
-- entitlements.
unfoldable pub deactivated : Text → ℕ → Binding → Binding
deactivated sale now b =
    if b.sale_id == sale then record b { active = false; updated_at = now } else b

unfoldable pub entitle : Text → Binding → Dict Text Binding → Dict Text Binding
entitle sale b entitlements =
    if b.sale_id == sale && not (is_empty b.account_id)
    then insert b.account_id b entitlements
    else entitlements

-- The loop, over the licenses in the order in which they are listed.
unfoldable pub deactivate_licenses :
    Text → ℕ → Dict Text Binding → Dict Text Binding → Dict Text Binding × Dict Text Binding
deactivate_licenses sale now [] entitlements = ([], entitlements)
deactivate_licenses sale now ((license, b) ∷ licenses) entitlements =
    let c = deactivated sale now b in
    let (rest, after) = deactivate_licenses sale now licenses (entitle sale c entitlements) in
    ((license, c) ∷ rest, after)

unfoldable pub deactivate_by_sale_id : Text → ℕ → Billing → Billing
deactivate_by_sale_id sale now b =
    let (licenses, entitlements) = deactivate_licenses sale now b.licenses b.entitlements in
    record b { licenses = licenses; entitlements = entitlements }
