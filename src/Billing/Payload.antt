-- ===== src/Billing/Payload.antt =====
-- The `data` of an event of the payment provider, as src/app/domains/billing/service.py and
-- src/app/domains/affiliates/service.py read it.
-- A field is what `data.get(...)` gives: `null` for a missing key. The fields of a nested object are
-- `null` where the object is missing or no object, as with `... if isinstance(..., dict) else {}`.
use signalsync_be.Base.{ℕ, Bool, false, not, Option, none, some, is_empty, if◌then◌else◌}
use signalsync_be.Base.Int.{ℤ, pos}
use signalsync_be.Base.Python.{Outcome, returned, ◌>>=◌}
use signalsync_be.Base.Text.{Text}
use signalsync_be.Billing.{BillingError, same_limit}

-- A value that JSON decoding gives. `other` is a float, a list or an object with its truth value and
-- an identity.
pub data Value : Type 0 where
  null : Value
  text : Text → Value
  whole : ℤ → Value
  other : Bool → ℕ → Value

pub record EventData : Type 0 where
  pub id : Value
  pub subscription_id : Value
  pub nested_subscription_id : Value
  pub nested_subscription_own_id : Value
  pub product_id : Value
  pub nested_product_id : Value
  pub status : Value
  pub customer_id : Value
  pub customer_email : Value
  pub tradepartna_user_id : Value
  pub currency : Value
  pub amount : Value
  pub current_period_start : Value
  pub current_period_end : Value
  pub cancel_at_period_end : Value
  pub canceled_at : Value
  pub invoice_id : Value
  pub payment_id : Value
  pub charge_id : Value
  pub nested_payment_id : Value
  pub nested_payment_own_id : Value
  pub amount_collected : Value
  pub amount_paid : Value
  pub total_paid : Value
  pub refund_amount : Value

-- What the code uses of Python's library: `str` of a value that is no text; `datetime.fromisoformat`
-- after the replacement of "Z", in seconds; `uuid.UUID`, none for an error; `Decimal(text)` rounded
-- to cents; and `(amount * (refund / base)).quantize(...)` in cents, for a refund below the base.
pub record Library : Type 0 where
  pub print : Value → Text
  pub from_iso : Text → Outcome BillingError ℕ
  pub uuid_of : Text → Option ℕ
  pub to_cents : Text → Outcome BillingError ℤ
  pub proportion : ℕ → ℤ → ℕ → ℤ

-- `bool(value)`
unfoldable pub truthy : Value → Bool
truthy null = false
truthy (text t) = not (is_empty t)
truthy (whole n) = not (same_limit n (pos 0))
truthy (other truth _) = truth

infixr 20 ◌or_else◌
-- `a or b`
unfoldable pub ◌or_else◌ : Value → Value → Value
unfolding truthy
a or_else b = if truthy a then a else b

-- `str(value)`
unfoldable pub str : Library → Value → Text
str library (text t) = t
str library value = library.print value

-- `str(value) if value else None`
unfoldable pub str_or_none : Library → Value → Option Text
unfolding truthy str
str_or_none library value = if truthy value then some (str library value) else none

abbrev pub iso_of : Library → Text → Outcome BillingError (Option ℕ)
iso_of library t = library.from_iso t >>= λ time. returned (some time)

-- `parse_datetime`
unfoldable pub parse_datetime : Library → Value → Outcome BillingError (Option ℕ)
parse_datetime library (text t) = if is_empty t then returned none else iso_of library t
parse_datetime library _ = returned none
