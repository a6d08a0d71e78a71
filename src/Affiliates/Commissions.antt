-- ===== src/Affiliates/Commissions.antt =====
-- The commission on a paid invoice: `create_commission_from_paid_invoice` of
-- src/app/domains/affiliates/service.py.
use signalsync_be.Base.{
  ℕ, ◌+◌, ◌*◌, ◌/◌, not, Option, none, some, List, ◌∷◌, leb, is_some, if◌then◌else◌,
}
use signalsync_be.Base.Int.{pos, pos_part, leb_ℤ}
use signalsync_be.Base.Python.{Outcome, returned, ◌>>=◌}
use signalsync_be.Base.Text.{Text, codes, upper}
use signalsync_be.Billing.{BillingSubscription, BillingError, subscription_by_provider_id}
use signalsync_be.Billing.Payload.{
  Value, text, EventData, Library, truthy, ◌or_else◌, str, str_or_none,
}
use signalsync_be.Affiliates.{
  AffiliateSetting, AffiliateProfile, ReferralAttribution, AffiliateCommission, AffiliateTables,
  pending, is_active, money, get_or_create_settings, with_settings, effective_rate, profile_of,
  attribution_of, commission_by_invoice, count_qualifying_commissions,
}

abbrev pub seconds_per_day : ℕ
seconds_per_day = 86400

-- `_subscription_id`
unfoldable pub subscription_id : Library → EventData → Option Text
unfolding str_or_none ◌or_else◌
subscription_id library event = str_or_none library (
    event.subscription_id or_else event.nested_subscription_id
    or_else event.nested_subscription_own_id)

-- `_payment_id`
unfoldable pub payment_id : Library → EventData → Option Text
unfolding str_or_none ◌or_else◌
payment_id library event = str_or_none library (
    event.payment_id or_else event.charge_id or_else event.nested_payment_id
    or_else event.nested_payment_own_id)

-- What a call returns with the tables it leaves.
abbrev pub Answer : Type 0
Answer = Outcome BillingError (Option AffiliateCommission × AffiliateTables)

-- `if found is None: return none`, else go on with what was found.
abbrev pub on_some {ℓ} : {A : Type ℓ} → Option A → AffiliateTables → (A → Answer) → Answer
on_some none tables next = returned (none, tables)
on_some (some a) tables next = next a

-- `(base * rate / 100).quantize(0.01, ROUND_HALF_UP)`, in cents
unfoldable pub commission_on : ℕ → ℕ → ℕ
commission_on base rate = (base * rate + 5000) / 10000

unfoldable pub currency_of : Library → EventData → BillingSubscription → Text
unfolding str ◌or_else◌
currency_of library event subscription =
    upper
      (str library (event.currency or_else text subscription.currency or_else text (codes "USD")))

unfoldable pub new_commission :
    Library
    → ℕ
    → EventData
    → Text
    → Text
    → BillingSubscription
    → ReferralAttribution
    → AffiliateProfile
    → AffiliateSetting
    → ℕ
    → AffiliateCommission
unfolding payment_id subscription_id currency_of effective_rate commission_on
new_commission library now event invoice provider_id subscription attribution profile config base =
    record {
      affiliate_user_id = attribution.affiliate_user_id;
      referred_user_id = subscription.user_id;
      provider_invoice_id = invoice;
      provider_payment_id = payment_id library event;
      provider_subscription_id = provider_id;
      currency = currency_of library event subscription;
      commission_base = base;
      commission_rate = effective_rate profile config;
      commission_amount = commission_on base (effective_rate profile config);
      reversed_amount = 0;
      status = pending;
      release_at = now + config.commission_hold_days * seconds_per_day;
      reversed_at = none;
      reversal_reason = none;
    }

abbrev pub amount_of : EventData → Value
unfolding ◌or_else◌
amount_of event =
    event.amount_collected or_else event.amount_paid or_else event.total_paid or_else event.amount

-- The part after the checks of the affiliate: the settings are made where there are none.
unfoldable pub commission_for :
    Library
    → ℕ
    → EventData
    → Text
    → Text
    → BillingSubscription
    → ReferralAttribution
    → AffiliateProfile
    → AffiliateTables
    → Answer
unfolding new_commission count_qualifying_commissions money get_or_create_settings
commission_for library now event invoice provider_id subscription attribution profile tables =
    let config = get_or_create_settings tables.settings in
    let counted = count_qualifying_commissions subscription.user_id tables.commissions in
    if leb config.recurring_months counted
    then returned (none, with_settings tables)
    else money library (amount_of event) >>= λ base.
        if leb_ℤ base (pos 0)
        then returned (none, with_settings tables)
        else let item =
            new_commission library now event invoice provider_id subscription attribution profile
              config (pos_part base) in
          returned
            (some item, record (with_settings tables) { commissions = item ∷ tables.commissions })

abbrev pub invoice_value : EventData → Value
unfolding ◌or_else◌
invoice_value event = event.invoice_id or_else event.id

unfoldable pub create_commission_from_paid_invoice :
    Library → ℕ → EventData → List BillingSubscription → AffiliateTables → Answer
unfolding truthy str subscription_id commission_for
create_commission_from_paid_invoice library now event subscriptions tables =
    let invoice = str library (invoice_value event) in
    if not (truthy (invoice_value event))
    then returned (none, tables)
    else on_some (subscription_id library event) tables λ provider_id.
      if is_some (commission_by_invoice invoice tables.commissions)
      then returned (none, tables)
      else on_some (subscription_by_provider_id provider_id subscriptions) tables λ subscription.
        on_some (attribution_of subscription.user_id tables.attributions) tables λ attribution.
          on_some (profile_of attribution.affiliate_user_id tables.profiles) tables λ profile.
            if is_active profile.status
            then commission_for library now event invoice provider_id subscription attribution
                profile tables
            else returned (none, tables)
