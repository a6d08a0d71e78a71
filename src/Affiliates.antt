-- ===== src/Affiliates.antt =====
-- Affiliate profiles, referrals and commissions: src/app/domains/affiliates/service.py, with the
-- queries of repository.py and the columns of models.py.
-- Money is in cents and a rate in hundredths of a percent, as the columns `Numeric(14, 2)` and
-- `Numeric(5, 2)` keep them. The rows of a table stand latest first.
pub mod Commissions
pub mod Reversals
pub mod Effects
pub mod Sound
pub mod Once
pub mod Referrals
mod Examples
use signalsync_be.Base.{
  ℕ, suc, ◌+◌, ◌*◌, ◌/◌, Bool, true, false, not, ◌&&◌, ◌||◌, Option, none, some, List, [], ◌∷◌, ltb,
  leb, ◌==◌, max, is_some, is_none, is_empty, if◌then◌else◌, find_first, any,
}
use signalsync_be.Base.Int.{ℤ, pos, pos_part, leb_ℤ}
use signalsync_be.Base.Python.{Outcome, returned, raised, ◌>>=◌}
use signalsync_be.Base.Text.{Text, codes, text_eq, upper, strip}
use signalsync_be.Billing.{BillingSubscription, BillingError, bad_amount, no_unique_code}
use signalsync_be.Billing.Payload.{
  Value, text, EventData, Library, truthy, ◌or_else◌, str, str_or_none,
}

pub data AffiliateStatus : Type 0 where
  active suspended : AffiliateStatus

pub data CommissionStatus : Type 0 where
  pending available paid reversed : CommissionStatus

pub data ReversalReason : Type 0 where
  refund dispute : ReversalReason

pub record AffiliateSetting : Type 0 where
  pub default_commission_rate : ℕ
  pub commission_hold_days : ℕ
  pub recurring_months : ℕ
  pub minimum_payout : ℕ

pub record AffiliateProfile : Type 0 where
  pub user_id : ℕ
  pub code : Text
  pub status : AffiliateStatus
  pub commission_rate_override : Option ℕ

pub record ReferralAttribution : Type 0 where
  pub affiliate_user_id : ℕ
  pub referred_user_id : ℕ
  pub referral_code : Text
  pub source : Option Text
  pub campaign : Option Text

pub record AffiliateCommission : Type 0 where
  pub affiliate_user_id : ℕ
  pub referred_user_id : ℕ
  pub provider_invoice_id : Text
  pub provider_payment_id : Option Text
  pub provider_subscription_id : Text
  pub currency : Text
  pub commission_base : ℕ
  pub commission_rate : ℕ
  pub commission_amount : ℕ
  pub reversed_amount : ℕ
  pub status : CommissionStatus
  pub release_at : ℕ
  pub reversed_at : Option ℕ
  pub reversal_reason : Option ReversalReason

-- The tables of the affiliate service.
pub record AffiliateTables : Type 0 where
  pub settings : Option AffiliateSetting
  pub profiles : List AffiliateProfile
  pub attributions : List ReferralAttribution
  pub commissions : List AffiliateCommission

abbrev pub is_active : AffiliateStatus → Bool
is_active active = true
is_active suspended = false

abbrev pub is_pending : CommissionStatus → Bool
is_pending pending = true
is_pending _ = false

abbrev pub is_reversed : CommissionStatus → Bool
is_reversed reversed = true
is_reversed _ = false

-- `status in {reversed, paid}`
abbrev pub is_closed : CommissionStatus → Bool
is_closed reversed = true
is_closed paid = true
is_closed _ = false

-- `_money`: the amount in cents.
unfoldable pub money : Library → Value → Outcome BillingError ℤ
unfolding truthy str
money library value =
    if truthy value then library.to_cents (str library value) else returned (pos 0)

abbrev pub default_settings : AffiliateSetting
default_settings = record {
  default_commission_rate = 2000;
  commission_hold_days = 30;
  recurring_months = 12;
  minimum_payout = 2500;
}

-- `get_or_create_settings`
unfoldable pub get_or_create_settings : Option AffiliateSetting → AffiliateSetting
get_or_create_settings none = default_settings
get_or_create_settings (some config) = config

abbrev pub with_settings : AffiliateTables → AffiliateTables
with_settings tables = record tables { settings = some (get_or_create_settings tables.settings) }

unfoldable pub effective_rate : AffiliateProfile → AffiliateSetting → ℕ
effective_rate profile config = elim profile.commission_rate_override [
  | none ↦ config.default_commission_rate
  | some rate ↦ rate
]

abbrev pub profile_of : ℕ → List AffiliateProfile → Option AffiliateProfile
profile_of user_id profiles = find_first (λ p. p.user_id == user_id) profiles

abbrev pub profile_by_code : Text → List AffiliateProfile → Option AffiliateProfile
profile_by_code code profiles = find_first (λ p. text_eq p.code (upper code)) profiles

abbrev pub attribution_of : ℕ → List ReferralAttribution → Option ReferralAttribution
attribution_of user_id attributions = find_first (λ a. a.referred_user_id == user_id) attributions

abbrev pub commission_by_invoice : Text → List AffiliateCommission → Option AffiliateCommission
commission_by_invoice invoice commissions =
    find_first (λ c. text_eq c.provider_invoice_id invoice) commissions

-- The number of a table's rows that pass a test.
abbrev pub count {ℓ} : {A : Type ℓ} → (A → Bool) → List A → ℕ
count test [] = 0
count test (a ∷ rows) = let rest = count test rows in if test a then suc rest else rest

abbrev pub qualifies : ℕ → AffiliateCommission → Bool
qualifies user_id c = c.referred_user_id == user_id && not (is_reversed c.status)

unfoldable pub count_qualifying_commissions : ℕ → List AffiliateCommission → ℕ
count_qualifying_commissions user_id commissions = count (qualifies user_id) commissions
