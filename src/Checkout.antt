-- ===== src/Checkout.antt =====
-- Checkouts and changes of plan: `start_checkout_or_change_plan` and `cancel_subscription` of
-- src/app/domains/billing/service.py, with the guard of checkout_guard.py.
-- The guard is one Redis key of the user with an expiry. What the payment provider answers, and
-- whether Redis can be reached, are arguments; a request has one time.
pub mod Single
pub mod Scheduled
mod Examples
use signalsync_be.Base.{
  ℕ, ◌+◌, Bool, true, false, not, ◌&&◌, ◌||◌, Option, none, some, List, ltb, FoundRow, put_back,
  if◌then◌else◌,
}
use signalsync_be.Base.Int.{ℤ, pos}
use signalsync_be.Base.Python.{Outcome, returned, raised, ◌>>=◌}
use signalsync_be.Base.Text.{Text, codes, text_eq, starts_with}
use signalsync_be.Billing.{
  BillingPlan, journal, copy, BillingSubscription, BillingError, http_exception, same_plan,
  same_limit, is_upgrade,
}
use signalsync_be.Billing.Catalog.{product_for}
use signalsync_be.Billing.Payload.{
  Value, null, text, whole, other, EventData, Library, truthy, parse_datetime,
}
use signalsync_be.Webhooks.{Database, Settings, is_canceled, has_ended, apply_subscription_payload}
use signalsync_be.Webhooks.Events.{Row, row_of_user, save_row}

pub record GuardEntry : Type 0 where
  pub value : Text
  pub expires_at : ℕ

abbrev pub GuardKey : Type 0
GuardKey = Option GuardEntry

abbrev pub checkout_ttl_seconds : ℕ
checkout_ttl_seconds = 3600

abbrev pub creating : Text
creating = codes "creating"

abbrev pub is_url : Text → Bool
is_url value = starts_with value (codes "https://")

-- The key as Redis shows it at a time.
unfoldable pub live : ℕ → GuardKey → GuardKey
live now none = none
live now (some entry) = if ltb now entry.expires_at then some entry else none

abbrev pub entry_of : Text → ℕ → GuardKey
entry_of value now = some (record { value = value; expires_at = now + checkout_ttl_seconds })

abbrev pub acquire_live : ℕ → GuardKey → Option Text × GuardKey
acquire_live now none = (none, entry_of creating now)
acquire_live now (some entry) =
    (some (if is_url entry.value then entry.value else creating), some entry)

-- `acquire`: none where the key was set
unfoldable pub acquire : ℕ → GuardKey → Option Text × GuardKey
unfolding live
acquire now key = acquire_live now (live now key)

-- What the user's requests change.
pub record CheckoutState : Type 0 where
  pub key : GuardKey
  pub db : Database

-- Whether Redis can be reached, at each call of the guard.
pub record Reachable : Type 0 where
  pub at_acquire : Bool
  pub at_store : Bool
  pub at_release : Bool

-- The answers of the payment provider, none for a `BachsError`: the URL of a checkout, and the
-- subscription after a change of plan.
pub record Provider : Type 0 where
  pub checkout_url : Option Value
  pub change_plan : Option EventData

pub data Started : Type 0 where
  checkout : Text → Started
  updated scheduled : Started

abbrev pub Result : Type 0
Result = Outcome BillingError Started × CheckoutState

-- `release`, whose errors are swallowed
abbrev pub release : Reachable → CheckoutState → CheckoutState
release reachable state = if reachable.at_release then record state { key = none } else state

-- `store`, and the end of the request
abbrev pub store_url : ℕ → Reachable → Text → CheckoutState → Result
store_url now reachable url state =
    if reachable.at_store
    then (returned (checkout url), record state { key = entry_of url now })
    else (raised (http_exception 503), state)

abbrev pub created : ℕ → Reachable → Option Value → CheckoutState → Result
created now reachable (some (text url)) state =
    if is_url url
    then store_url now reachable url state
    else (raised (http_exception 502), release reachable state)
created now reachable _ state = (raised (http_exception 502), release reachable state)

abbrev pub go_on : ℕ → Reachable → Provider → Option Text → CheckoutState → Result
go_on now reachable provider none state = created now reachable provider.checkout_url state
go_on now reachable provider (some value) state =
    if text_eq value creating
    then (raised (http_exception 409), state)
    else (returned (checkout value), state)

-- A user without a subscription, or with one that has ended, is sent to a checkout.
unfoldable pub open_checkout : ℕ → Reachable → Provider → CheckoutState → Result
unfolding acquire
open_checkout now reachable provider state =
    let (found, key) = acquire now state.key in
    if reachable.at_acquire
    then go_on now reachable provider found (record state { key = key })
    else (raised (http_exception 503), state)

-- The fields of a change that waits for the end of the period.
unfoldable pub schedule : Text → BillingPlan → ℤ → BillingSubscription → BillingSubscription
schedule product plan target_accounts s = record s {
  provider_product_id = product;
  pending_plan = some plan;
  pending_copy_account_limit = some target_accounts;
  pending_effective_at = s.current_period_end;
}

-- The commit, or the exception, after which nothing is committed.
abbrev pub commit : CheckoutState → Started → Outcome BillingError Database → Result
commit state mode (returned db) = (returned mode, record state { db = db })
commit state mode (raised error) = (raised error, state)

module _ (library : Library) (settings : Settings) (now : ℕ) where
  abbrev pub upgrade : Row → Option EventData → CheckoutState → Result
  upgrade row none state = (raised (http_exception 502), state)
  upgrade row (some payload) state = commit state updated (
      settings.catalog >>= λ catalog.
      apply_subscription_payload library settings now payload catalog (some row.item) false
        state.db.subscriptions
      >>= λ s. save_row row s state.db)

  abbrev pub downgrade : Row → Text → BillingPlan → ℤ → Option EventData → CheckoutState → Result
  downgrade row product plan target none state = (raised (http_exception 502), state)
  downgrade row product plan target (some _) state = commit state scheduled (
      returned
        (record state.db { subscriptions = put_back row (schedule product plan target row.item) }))

  pub change_plan : Row → Text → BillingPlan → ℤ → Provider → CheckoutState → Result
  unfolding schedule
  change_plan row product plan target provider state =
      if same_plan row.item.plan plan && same_limit row.item.copy_account_limit target
      then (raised (http_exception 409), state)
      else if is_upgrade row.item plan target
      then upgrade row provider.change_plan state
      else downgrade row product plan target provider.change_plan state

  abbrev pub with_product :
      Option Row
      → BillingPlan
      → ℤ
      → Reachable
      → Provider
      → CheckoutState
      → Outcome BillingError Text
      → Result
  with_product row plan target reachable provider state (raised error) = (raised error, state)
  with_product none plan target reachable provider state (returned product) =
      open_checkout now reachable provider state
  with_product (some row) plan target reachable provider state (returned product) =
      if has_ended row.item.status
      then open_checkout now reachable provider state
      else change_plan row product plan target provider state

  pub start_checkout_or_change_plan :
      ℕ → BillingPlan → ℤ → Reachable → Provider → CheckoutState → Result
  unfolding open_checkout change_plan
  start_checkout_or_change_plan user_id plan copy_accounts reachable provider state =
      let target = if same_plan plan copy then copy_accounts else pos 0 in
      with_product (row_of_user user_id state.db.subscriptions) plan target reachable provider state
        (settings.catalog >>= λ catalog. product_for catalog plan target)

-- What `cancel_at_period_end` of the provider answers: the flag, none for a missing key, and the end
-- of the period.
pub record CancelAnswer : Type 0 where
  pub flag : Option Value
  pub period_end : Value

abbrev pub flag_or_true : Option Value → Bool
flag_or_true none = true
flag_or_true (some value) = truthy value

abbrev pub end_or_old : Option ℕ → Option ℕ → Option ℕ
end_or_old none old = old
end_or_old (some time) old = some time

abbrev pub cancel_row :
    Library → Option CancelAnswer → Row → Database → Outcome BillingError Database
cancel_row library none row db = raised (http_exception 502)
cancel_row library (some answer) row db = parse_datetime library answer.period_end >>= λ period_end.
    returned (record db {
      subscriptions = put_back row (record row.item {
        cancel_at_period_end = flag_or_true answer.flag;
        current_period_end = end_or_old period_end row.item.current_period_end;
      });
    })

abbrev pub cancel_found :
    Library → Option CancelAnswer → Option Row → Database → Outcome BillingError Database
cancel_found library answer none db = raised (http_exception 404)
cancel_found library answer (some row) db =
    if is_canceled row.item.status
    then raised (http_exception 404)
    else if row.item.cancel_at_period_end
    then raised (http_exception 409)
    else cancel_row library answer row db

pub cancel_subscription :
    Library → ℕ → Option CancelAnswer → Database → Outcome BillingError Database
cancel_subscription library user_id answer db =
    cancel_found library answer (row_of_user user_id db.subscriptions) db
