-- ===== src/Webhooks.antt =====
-- Events of the payment provider: `apply_subscription_payload`, `_user_for_new_subscription` and
-- `process_webhook_event` of src/app/domains/billing/service.py.
-- An event has one time for all calls of `utcnow`. The database is a record of tables; a commit keeps
-- the changed tables, a rollback the ones before.
pub mod Events
pub mod Changes
pub mod Handled
pub mod Settled
pub mod Grace
mod Examples
use signalsync_be.Base.{
  ℕ, ◌+◌, ◌*◌, Bool, true, false, not, ◌&&◌, ◌||◌, Option, none, some, List, [], ◌∷◌, ◌==◌, ltb,
  is_none, is_empty, if◌then◌else◌, any, find_first,
}
use signalsync_be.Base.Int.{ℤ, pos}
use signalsync_be.Base.Python.{Outcome, returned, raised, ◌>>=◌}
use signalsync_be.Base.Text.{Text, codes, text_eq, lower}
use signalsync_be.Billing.{
  BillingPlan, BillingStatus, active, past_due, unpaid, canceled, BillingSubscription, BillingError,
  missing_identifiers, unlinked, unsupported_status, not_a_user, bad_envelope, uniqueness,
  same_plan, same_limit, is_after, subscription_by_provider_id, subscription_for_user,
}
use signalsync_be.Billing.Catalog.{ProductCatalog, entitlement_for}
use signalsync_be.Billing.Payload.{
  Value, null, text, whole, other, EventData, Library, truthy, ◌or_else◌, str, parse_datetime,
}
use signalsync_be.Affiliates.{AffiliateTables, AffiliateCommission, ReversalReason, refund, dispute}
use signalsync_be.Affiliates.Commissions.{Answer, create_commission_from_paid_invoice}
use signalsync_be.Affiliates.Reversals.{reverse_commission}

pub data EventType : Type 0 where
  subscription_created subscription_updated subscription_deleted : EventType
  invoice_payment_failed invoice_paid refund_paid dispute_created other_event : EventType

-- The users that are not deleted, by `get_by_id` and `get_by_email`.
pub record User : Type 0 where
  pub id : ℕ
  pub email : Text

pub record Database : Type 0 where
  pub events : List Text
  pub subscriptions : List BillingSubscription
  pub users : List User
  pub affiliates : AffiliateTables

-- What the settings give: the answer of `ProductCatalog.from_settings`, and the days of grace.
pub record Settings : Type 0 where
  pub catalog : Outcome BillingError ProductCatalog
  pub grace_days : ℕ

abbrev pub same_event_id : Text → Text → Bool
same_event_id a b = text_eq a b

abbrev pub is_canceled : BillingStatus → Bool
is_canceled canceled = true
is_canceled _ = false

-- `status in {canceled, unpaid}`
abbrev pub has_ended : BillingStatus → Bool
has_ended canceled = true
has_ended unpaid = true
has_ended _ = false

abbrev pub named_status : Text → Outcome BillingError BillingStatus
named_status name =
    if text_eq name (codes "active")
    then returned active
    else if text_eq name (codes "past_due")
    then returned past_due
    else if text_eq name (codes "unpaid")
    then returned unpaid
    else if text_eq name (codes "canceled")
    then returned canceled
    else raised unsupported_status

-- `_status`
pub status_of : Library → Value → Bool → Outcome BillingError BillingStatus
status_of library value true = returned canceled
status_of library value false = named_status (str library value)

-- `pending_matches`
abbrev pub same_pending : Option BillingPlan → Option ℤ → BillingPlan → ℤ → Bool
same_pending (some p) (some l) plan limit = same_plan p plan && same_limit l limit
same_pending _ _ plan limit = false

unfoldable pub pending_matches : BillingSubscription → BillingPlan → ℤ → ℕ → Bool
pending_matches s plan limit now =
    same_pending s.pending_plan s.pending_copy_account_limit plan limit
    && is_after s.pending_effective_at now

-- The plan of the payload, unless it is the one that is scheduled for later.
unfoldable pub apply_plan : BillingSubscription → BillingPlan → ℤ → ℕ → BillingSubscription
unfolding pending_matches
apply_plan s plan limit now = if pending_matches s plan limit now then s else record s {
  plan = plan;
  copy_account_limit = limit;
  pending_plan = none;
  pending_copy_account_limit = none;
  pending_effective_at = none;
}

abbrev pub seconds_per_day : ℕ
seconds_per_day = 86400

-- `if grace_ends_at is None: grace_ends_at = utcnow() + timedelta(days=...)`
abbrev pub start_grace : Option ℕ → ℕ → ℕ → Option ℕ
start_grace none days now = some (now + days * seconds_per_day)
start_grace (some ends) days now = some ends

abbrev pub grace_for : BillingStatus → Option ℕ → ℕ → ℕ → Option ℕ
grace_for past_due ends days now = start_grace ends days now
grace_for active ends days now = none
grace_for _ ends days now = ends

-- `isinstance(value, str)`
abbrev pub as_text : Value → Outcome BillingError Text
as_text (text t) = returned t
as_text _ = raised missing_identifiers

abbrev pub or_text : Value → Text → Text → Value
or_text value old default = value or_else text old or_else text default

-- `customer.get("customer_id") or subscription.provider_customer_id`; the column takes a text.
abbrev pub customer_of : Library → Value → Option Text → Option Text
customer_of library value old = if truthy value then some (str library value) else old

-- The fields of the payload as the subscription gets them, with the status and the times read.
pub record Times : Type 0 where
  pub period_start : Option ℕ
  pub period_end : Option ℕ
  pub canceled_at : Option ℕ

pub written :
    Library
    → Settings
    → ℕ
    → EventData
    → Text
    → Text
    → BillingPlan × ℤ
    → BillingStatus
    → Times
    → BillingSubscription
    → BillingSubscription
unfolding apply_plan
written library settings now event provider_id product entitlement status times s =
    record (apply_plan s entitlement.0 entitlement.1 now) {
      provider_subscription_id = provider_id;
      provider_product_id = product;
      status = status;
      provider_customer_id = customer_of library event.customer_id s.provider_customer_id;
      currency = str library (or_text event.currency s.currency (codes "USD"));
      amount = str library (or_text event.amount s.amount (codes "0.00"));
      current_period_start = times.period_start;
      current_period_end = times.period_end;
      cancel_at_period_end = truthy event.cancel_at_period_end;
      canceled_at = times.canceled_at;
      grace_ends_at = grace_for status s.grace_ends_at settings.grace_days now;
    }

pub times_of : Library → EventData → Outcome BillingError Times
times_of library event = parse_datetime library event.current_period_start >>= λ period_start.
    parse_datetime library event.current_period_end >>= λ period_end.
    parse_datetime library event.canceled_at >>= λ canceled_at.
    returned
      (record { period_start = period_start; period_end = period_end; canceled_at = canceled_at })

abbrev pub or_unlinked : Option BillingSubscription → Outcome BillingError BillingSubscription
or_unlinked none = raised unlinked
or_unlinked (some s) = returned s

-- `existing or repo.get_subscription_by_provider_id(...)`
abbrev pub existing_or :
    Option BillingSubscription → Text → List BillingSubscription → Option BillingSubscription
existing_or none provider_id rows = subscription_by_provider_id provider_id rows
existing_or (some s) provider_id rows = some s

pub apply_subscription_payload :
    Library
    → Settings
    → ℕ
    → EventData
    → ProductCatalog
    → Option BillingSubscription
    → Bool
    → List BillingSubscription
    → Outcome BillingError BillingSubscription
unfolding written times_of status_of
apply_subscription_payload library settings now event catalog existing deleted rows =
    as_text (event.subscription_id or_else event.id) >>= λ provider_id.
    as_text (event.product_id or_else event.nested_product_id) >>= λ product.
    entitlement_for catalog product >>= λ entitlement.
    or_unlinked (existing_or existing provider_id rows) >>= λ s.
    status_of library event.status deleted >>= λ status. times_of library event >>= λ times.
    returned (written library settings now event provider_id product entitlement status times s)
