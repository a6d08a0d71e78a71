-- ===== src/Webhooks/Events.antt =====
-- The webhook's handler: `_user_for_new_subscription` and `process_webhook_event` of
-- src/app/domains/billing/service.py, with `claim_webhook_event` of repository.py.
use signalsync_be.Base.{
  ℕ, Bool, true, false, not, ◌&&◌, Option, none, some, List, [], ◌∷◌, ◌++◌, ◌==◌, any, find_first,
  FoundRow, locate, put_back, if◌then◌else◌,
}
use signalsync_be.Base.Int.{ℤ}
use signalsync_be.Base.Python.{Outcome, returned, raised, ◌>>=◌}
use signalsync_be.Base.Text.{Text, codes, text_eq, lower}
use signalsync_be.Billing.{
  BillingPlan, active, past_due, BillingSubscription, BillingError, not_a_user, bad_envelope,
  uniqueness,
}
use signalsync_be.Billing.Catalog.{entitlement_for}
use signalsync_be.Billing.Payload.{Value, text, EventData, Library, truthy, ◌or_else◌, str}
use signalsync_be.Affiliates.{ReversalReason, refund, dispute}
use signalsync_be.Affiliates.Commissions.{Answer, create_commission_from_paid_invoice}
use signalsync_be.Affiliates.Reversals.{reverse_commission}
use signalsync_be.Webhooks.{
  EventType, subscription_created, subscription_deleted, invoice_payment_failed, invoice_paid,
  refund_paid, dispute_created, other_event, User, Database, Settings, is_canceled, has_ended,
  start_grace, apply_subscription_payload,
}

-- The three fields of the envelope, none for a type that is no text and for data that is no object.
pub record Envelope : Type 0 where
  pub id : Value
  pub event_type : Option EventType
  pub content : Option EventData

abbrev pub Row : Type 0
Row = FoundRow BillingSubscription

abbrev pub row_of_provider : Text → List BillingSubscription → Option Row
row_of_provider provider_id rows = locate (λ s. text_eq s.provider_subscription_id provider_id) rows

abbrev pub row_of_user : ℕ → List BillingSubscription → Option Row
row_of_user user_id rows = locate (λ s. s.user_id == user_id) rows

abbrev pub user_by_id : Option ℕ → List User → Option User
user_by_id none users = none
user_by_id (some id) users = find_first (λ u. u.id == id) users

abbrev pub user_by_email : Text → List User → Option User
user_by_email email users = find_first (λ u. text_eq u.email (lower email)) users

abbrev pub or_user : Option User → Option User → Option User
or_user none b = b
or_user (some user) b = some user

-- `_user_for_new_subscription`
unfoldable pub user_for_new_subscription : Library → EventData → List User → Option User
unfolding truthy str
user_for_new_subscription library event users =
    or_user
      (if truthy event.tradepartna_user_id
        then user_by_id (library.uuid_of (str library event.tradepartna_user_id)) users
        else none)
      (if truthy event.customer_email
        then user_by_email (lower (str library event.customer_email)) users
        else none)

-- The changed row, unless another one has its provider id, which is unique.
unfoldable pub save_row : Row → BillingSubscription → Database → Outcome BillingError Database
save_row row s db =
    if any (λ o. text_eq o.provider_subscription_id s.provider_subscription_id)
      (row.before ++ row.after)
    then raised uniqueness
    else returned (record db { subscriptions = put_back row s })

module _ (library : Library) (settings : Settings) (now : ℕ) (event : EventData) where
  unfoldable pub apply_to : Bool → Database → Row → Outcome BillingError Database
  unfolding apply_subscription_payload save_row
  apply_to deleted db row = settings.catalog >>= λ catalog.
      apply_subscription_payload library settings now event catalog (some row.item) deleted
        db.subscriptions
      >>= λ s. save_row row s db

  abbrev pub raw_provider_id : Value
  raw_provider_id = event.subscription_id or_else event.id

  unfoldable pub created_row : User → Text → BillingPlan → ℤ → BillingSubscription
  unfolding str ◌or_else◌
  created_row user product plan limit = record {
    user_id = user.id;
    provider_customer_id = none;
    provider_subscription_id = str library raw_provider_id;
    provider_product_id = product;
    plan = plan;
    status = active;
    copy_account_limit = limit;
    currency = str library (event.currency or_else text (codes "USD"));
    amount = str library (event.amount or_else text (codes "0.00"));
    current_period_start = none;
    current_period_end = none;
    grace_ends_at = none;
    cancel_at_period_end = false;
    canceled_at = none;
    pending_plan = none;
    pending_copy_account_limit = none;
    pending_effective_at = none;
  }

  abbrev pub first_row : User → Text → BillingPlan × ℤ → Database → Row
  first_row user product entitlement db = record {
    before = [];
    item = created_row user product entitlement.0 entitlement.1;
    after = db.subscriptions;
  }

  -- A user without a subscription gets a row; one with another subscription that goes on keeps it.
  unfoldable pub create_for : Option User → Database → Option Row → Outcome BillingError Database
  unfolding created_row apply_to
  create_for none db row = raised not_a_user
  create_for (some user) db none =
      let product = str library event.product_id in
      settings.catalog >>= λ catalog. entitlement_for catalog product >>= λ entitlement.
      apply_to false db (first_row user product entitlement db)
  create_for (some user) db (some row) =
      if not (has_ended row.item.status)
        && not (text_eq row.item.provider_subscription_id (str library raw_provider_id))
      then returned db
      else apply_to false db row

  abbrev pub found_row : Database → Option Row
  found_row db =
      if truthy raw_provider_id
      then row_of_provider (str library raw_provider_id) db.subscriptions
      else none

  abbrev pub row_of : Option User → Database → Option Row
  row_of none db = none
  row_of (some user) db = row_of_user user.id db.subscriptions

  -- The event that creates a subscription, and the ones that update or delete it.
  unfoldable pub subscription_event :
      EventType → Option Row → Database → Outcome BillingError Database
  unfolding create_for apply_to user_for_new_subscription
  subscription_event subscription_created none db =
      let user = user_for_new_subscription library event db.users in
      create_for user db (row_of user db)
  subscription_event _ none db = returned db
  subscription_event subscription_deleted (some row) db = apply_to true db row
  subscription_event _ (some row) db = apply_to false db row

  unfoldable pub payment_failed : Option Row → Database → Database
  payment_failed none db = db
  payment_failed (some row) db = record db {
    subscriptions = put_back row (record row.item {
      status = past_due;
      grace_ends_at = start_grace row.item.grace_ends_at settings.grace_days now;
    });
  }

  abbrev pub with_affiliates : Database → Answer → Outcome BillingError Database
  with_affiliates db (returned (_, affiliates)) = returned (record db { affiliates = affiliates })
  with_affiliates db (raised error) = raised error

  unfoldable pub payment_made : Option Row → Database → Outcome BillingError Database
  payment_made none db = returned db
  payment_made (some row) db =
      let rows = put_back row (record row.item { status = active; grace_ends_at = none }) in
      if is_canceled row.item.status
      then returned db
      else with_affiliates (record db { subscriptions = rows })
          (create_commission_from_paid_invoice library now event rows db.affiliates)

  unfoldable pub reversal : ReversalReason → Database → Outcome BillingError Database
  reversal reason db =
      with_affiliates db (reverse_commission library now reason event db.affiliates)

  -- The `try` block, on the database with the event claimed.
  unfoldable pub handle_event : EventType → Database → Outcome BillingError Database
  unfolding subscription_event payment_failed payment_made reversal
  handle_event invoice_payment_failed db =
      let provider_id = str library event.nested_subscription_id in
      returned (payment_failed (row_of_provider provider_id db.subscriptions) db)
  handle_event invoice_paid db =
      let provider_id = str library (
        event.subscription_id or_else event.nested_subscription_id
        or_else event.nested_subscription_own_id) in
      payment_made (row_of_provider provider_id db.subscriptions) db
  handle_event refund_paid db = reversal refund db
  handle_event dispute_created db = reversal dispute db
  handle_event other_event db = returned db
  handle_event event_type db = subscription_event event_type (found_row db) db

-- The commit, or the rollback with which the exception is passed on.
abbrev pub close : Database → Outcome BillingError Database → Outcome BillingError Bool × Database
close db (returned changed) = (returned true, changed)
close db (raised error) = (raised error, db)

unfoldable pub process_claimed :
    Library
    → Settings
    → ℕ
    → Text
    → EventType
    → EventData
    → Database
    → Outcome BillingError Bool × Database
unfolding handle_event
process_claimed library settings now id event_type event db =
    if any (λ other. text_eq id other) db.events
    then (returned false, db)
    else let claimed = record db { events = id ∷ db.events } in
      close db (handle_event library settings now event event_type claimed)

abbrev pub process_fields :
    Library
    → Settings
    → ℕ
    → Value
    → Option EventType
    → Option EventData
    → Database
    → Outcome BillingError Bool × Database
process_fields library settings now (text id) (some event_type) (some event) db =
    process_claimed library settings now id event_type event db
process_fields library settings now _ _ _ db = (raised bad_envelope, db)

unfoldable pub process_webhook_event :
    Library → Settings → ℕ → Envelope → Database → Outcome BillingError Bool × Database
unfolding process_claimed
process_webhook_event library settings now envelope db =
    process_fields library settings now envelope.id envelope.event_type envelope.content db

-- A delivery with its time, and deliveries one after another.
pub record Delivery : Type 0 where
  pub now : ℕ
  pub envelope : Envelope

unfoldable pub process_all : Library → Settings → List Delivery → Database → Database
unfolding process_webhook_event
process_all library settings [] db = db
process_all library settings (d ∷ deliveries) db =
    process_all library settings deliveries
      (process_webhook_event library settings d.now d.envelope db).1
