-- ===== src/Billing.antt =====
-- Subscriptions and what they give access to: src/app/domains/billing/models.py, entitlements.py
-- and the pure part of service.py.
-- Times are seconds. A limit is an `int` of Python.
pub mod Catalog
pub mod Payload
pub mod Access
pub mod Sample
mod Examples
use signalsync_be.Base.{
  ℕ, Bool, true, false, ◌&&◌, ◌||◌, Option, none, some, List, ltb, leb, ◌==◌, find_first, is_none,
  is_some, if◌then◌else◌,
}
use signalsync_be.Base.Int.{ℤ, pos, ltb_ℤ, leb_ℤ}
use signalsync_be.Base.Python.{Outcome, returned, raised, raise_if, ◌>>◌}
use signalsync_be.Base.Text.{Text, text_eq}

pub data BillingPlan : Type 0 where
  journal copy : BillingPlan

pub data BillingStatus : Type 0 where
  active past_due unpaid canceled : BillingStatus

pub record BillingSubscription : Type 0 where
  pub user_id : ℕ
  pub provider_customer_id : Option Text
  pub provider_subscription_id : Text
  pub provider_product_id : Text
  pub plan : BillingPlan
  pub status : BillingStatus
  pub copy_account_limit : ℤ
  pub currency : Text
  pub amount : Text
  pub current_period_start : Option ℕ
  pub current_period_end : Option ℕ
  pub grace_ends_at : Option ℕ
  pub cancel_at_period_end : Bool
  pub canceled_at : Option ℕ
  pub pending_plan : Option BillingPlan
  pub pending_copy_account_limit : Option ℤ
  pub pending_effective_at : Option ℕ

-- The exceptions of the billing and affiliate services, by their message.
pub data BillingError : Type 0 where
  unknown_product tiers_out_of_range bad_catalog missing_identifiers unlinked : BillingError
  unsupported_status not_a_user bad_envelope bad_datetime bad_amount : BillingError
  no_unique_code uniqueness : BillingError
  http_exception : ℕ → BillingError

abbrev pub same_plan : BillingPlan → BillingPlan → Bool
same_plan journal journal = true
same_plan copy copy = true
same_plan _ _ = false

abbrev pub same_limit : ℤ → ℤ → Bool
same_limit a b = leb_ℤ a b && leb_ℤ b a

-- `SubscriptionLike`
pub record SubscriptionLike : Type 0 where
  pub plan : BillingPlan
  pub status : BillingStatus
  pub copy_account_limit : ℤ
  pub current_period_end : Option ℕ
  pub grace_ends_at : Option ℕ

-- `at is not None and at > now`
abbrev pub is_after : Option ℕ → ℕ → Bool
is_after none now = false
is_after (some time) now = ltb now time

abbrev pub paid_access : BillingStatus → SubscriptionLike → ℕ → Bool
paid_access active s now = is_none s.current_period_end || is_after s.current_period_end now
paid_access past_due s now = is_after s.grace_ends_at now
paid_access _ s now = false

unfoldable pub has_paid_access : Option SubscriptionLike → ℕ → Bool
has_paid_access none now = false
has_paid_access (some s) now = paid_access s.status s now

unfoldable pub has_journal_access : Option SubscriptionLike → ℕ → Bool
unfolding has_paid_access
has_journal_access s now = has_paid_access s now

unfoldable pub has_copy_access : Option SubscriptionLike → ℕ → Bool
unfolding has_paid_access
has_copy_access none now = false
has_copy_access (some s) now =
    same_plan s.plan copy && ltb_ℤ (pos 0) s.copy_account_limit && has_paid_access (some s) now

-- `current_account_count >= subscription.copy_account_limit`, asked of a subscription that has access
abbrev pub is_full : Option SubscriptionLike → ℕ → Bool
is_full none count = true
is_full (some s) count = leb_ℤ s.copy_account_limit (pos count)

pub require_copy_account_capacity :
    Option SubscriptionLike → ℕ → ℕ → Outcome BillingError (Unit {0})
unfolding has_copy_access
require_copy_account_capacity s count now =
    if has_copy_access s now
    then raise_if (is_full s count) (http_exception 403)
    else raised (http_exception 402)

-- `pending_effective_at is not None and pending_effective_at <= now`
abbrev pub has_come : Option ℕ → ℕ → Bool
has_come none now = false
has_come (some time) now = leb time now

abbrev pub limit_or_zero : Option ℤ → ℤ
limit_or_zero none = pos 0
limit_or_zero (some limit) = limit

abbrev pub pending_values : Option BillingPlan → BillingSubscription → ℕ → BillingPlan × ℤ
pending_values none s now = (s.plan, s.copy_account_limit)
pending_values (some plan) s now =
    if has_come s.pending_effective_at now
    then (plan, limit_or_zero s.pending_copy_account_limit)
    else (s.plan, s.copy_account_limit)

unfoldable pub effective_values : BillingSubscription → ℕ → BillingPlan × ℤ
effective_values s now = pending_values s.pending_plan s now

unfoldable pub effective_subscription : BillingSubscription → ℕ → SubscriptionLike
unfolding effective_values
effective_subscription s now =
    let (plan, limit) = effective_values s now in
    record {
      plan = plan;
      status = s.status;
      copy_account_limit = limit;
      current_period_end = s.current_period_end;
      grace_ends_at = s.grace_ends_at;
    }

-- What the response says of access; its other fields are copies.
pub record SubscriptionResponse : Type 0 where
  pub plan : Option BillingPlan
  pub status : Option BillingStatus
  pub journal_access : Bool
  pub copy_access : Bool
  pub copy_account_limit : ℤ

-- The effective subscription is made at the time of the clock, and then set to the plan and the limit
-- of the given time.
pub subscription_response : Option BillingSubscription → ℕ → ℕ → SubscriptionResponse
unfolding effective_values effective_subscription has_journal_access has_copy_access
subscription_response none clock now = record {
  plan = none;
  status = none;
  journal_access = false;
  copy_access = false;
  copy_account_limit = pos 0;
}
subscription_response (some s) clock now =
    let values = effective_values s now in
    let effective = record (effective_subscription s clock) {
      plan = values.0;
      copy_account_limit = values.1;
    } in
    record {
      plan = some values.0;
      status = some s.status;
      journal_access = has_journal_access (some effective) now;
      copy_access = has_copy_access (some effective) now;
      copy_account_limit = values.1;
    }

unfoldable pub is_upgrade : BillingSubscription → BillingPlan → ℤ → Bool
is_upgrade s target_plan target_accounts =
    (same_plan s.plan journal && same_plan target_plan copy)
    || (same_plan s.plan copy
        && same_plan target_plan copy
        && ltb_ℤ s.copy_account_limit target_accounts)

-- `get_subscription_by_provider_id` and `get_subscription_for_user` of repository.py
abbrev pub subscription_by_provider_id :
    Text → List BillingSubscription → Option BillingSubscription
subscription_by_provider_id provider_id subscriptions =
    find_first (λ s. text_eq s.provider_subscription_id provider_id) subscriptions

abbrev pub subscription_for_user : ℕ → List BillingSubscription → Option BillingSubscription
subscription_for_user user_id subscriptions = find_first (λ s. s.user_id == user_id) subscriptions
