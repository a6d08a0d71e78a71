-- ===== src/Billing/Examples.antt =====
-- Examples for the catalog and the access to it (src/app/domains/billing).
use signalsync_be.Base.{◌≡◌, ◌↔◌, refl, true, some, arith}
use signalsync_be.Base.Int.{pos, ◌<ℤ◌}
use signalsync_be.Base.Python.{returned}
use signalsync_be.Base.Text.{Text, codes, strip, is_space}
use signalsync_be.Billing.{
  copy, subscription_response, require_copy_account_capacity, effective_subscription,
}
use signalsync_be.Billing.Catalog.{from_settings, product_for, entitlement_for}
use signalsync_be.Billing.Catalog.RoundTrip.{copy_plan, entitlement_for-product_for}
use signalsync_be.Billing.Access.{subscription_response-enforced}
use signalsync_be.Billing.Sample.{raw_tiers, catalog, subscription}

accepted : from_settings (codes " j") (some raw_tiers) ≡ returned catalog
unfolding from_settings strip is_space
accepted = refl

entitlement_for-product_for_example :
    (product : Text) × (product_for catalog copy (pos 3) ≡ returned product)
    × (entitlement_for catalog product ≡ returned (copy, pos 3))
entitlement_for-product_for_example =
    entitlement_for-product_for (codes " j") (some raw_tiers) catalog accepted
      (copy_plan 3 (omega arith) (omega arith))

subscription_response-enforced_example :
    let response = subscription_response (some subscription) 900 1000 in
    ((response.copy_access ≡ true) × (pos 1 <ℤ response.copy_account_limit)) ↔ (
      require_copy_account_capacity (some (effective_subscription subscription 1000)) 1 1000
      ≡ returned tt)
subscription_response-enforced_example = subscription_response-enforced subscription 900 1000 1
