-- ===== src/Webhooks/Grace.antt =====
-- The grace periods and the commissions under the deliveries of the webhook, and what a failed
-- payment does (src/app/domains/billing/service.py).
use signalsync_be.Base.{
  ℕ, ◌+◌, ◌*◌, ◌<◌, ◌≡◌, arith, refl, Bool, true, false, none, some, List, [], ◌∷◌, All, put_back,
}
use signalsync_be.Base.Python.{Outcome, returned, raised}
use signalsync_be.Billing.{
  BillingSubscription, canceled, past_due, BillingError, has_paid_access, effective_subscription,
  effective_values,
}
use signalsync_be.Billing.Payload.{EventData, Library}
use signalsync_be.Affiliates.Effects.{months}
use signalsync_be.Affiliates.Sound.{IsSound, IsProportional}
use signalsync_be.Affiliates.Once.{IsKept}
use signalsync_be.Webhooks.{Database, Settings}
use signalsync_be.Webhooks.Settled.{IsStep, process_webhook_event-IsStep}
use signalsync_be.Webhooks.Changes.{HasGrace}
use signalsync_be.Webhooks.Events.{
  Row, payment_failed, payment_made, process_webhook_event, Delivery, process_all,
}

IsSettled : Library → ℕ → Database → Type 0
IsSettled library limit db =
    All HasGrace db.subscriptions × (IsProportional library → IsKept limit db.affiliates)

step-IsSettled :
    (library : Library) (limit : ℕ) (db : Database) (step : Outcome BillingError Bool × Database)
    → IsStep library db step
    → IsSettled library limit db
    → IsSettled library limit step.1
unfolding IsSettled
step-IsSettled library limit db (raised error, after) h s = rw h s
step-IsSettled library limit db (returned false, after) h s = rw h s
step-IsSettled library limit db (returned true, after) (own, start, is_start, h) s =
    (h.grace (rw is_start s.0), λ fair. h.sound limit fair (rw is_start (s.1 fair)))

process_all-IsSettled :
    (library : Library) (settings : Settings) (limit : ℕ) (deliveries : List Delivery)
    (db : Database)
    → IsSettled library limit db
    → IsSettled library limit (process_all library settings deliveries db)
unfolding process_all
process_all-IsSettled library settings limit [] db h = h
process_all-IsSettled library settings limit (d ∷ deliveries) db h =
    process_all-IsSettled library settings limit deliveries
      (process_webhook_event library settings d.now d.envelope db).1
      (step-IsSettled library limit db (process_webhook_event library settings d.now d.envelope db)
        (process_webhook_event-IsStep library settings d.now d.envelope db) h)

-- After any deliveries, repeated, out of order or invalid, where it held before: an active
-- subscription has no grace period and one that is past due has one; and the commissions are sound,
-- at most one for an invoice, at most the configured number that count for a user, and none reversed
-- beyond its amount.
pub process_all-keeps :
    (library : Library) (settings : Settings) (deliveries : List Delivery) (db : Database)
    → IsProportional library
    → All HasGrace db.subscriptions
    → IsSound (months db.affiliates) db.affiliates.commissions
    → let after = process_all library settings deliveries db in
      All HasGrace after.subscriptions × IsSound (months db.affiliates) after.affiliates.commissions
unfolding IsSettled
process_all-keeps library settings deliveries db fair grace sound =
    let (grace_after, kept) =
      process_all-IsSettled library settings (months db.affiliates) deliveries db
        (grace, λ _. (refl, sound)) in
    (grace_after, (kept fair).1)

-- A finding: when a canceled subscription has no end of a grace period and the configured grace is
-- at least a day, it has no access, and a paid invoice changes nothing; but a failed payment makes it
-- past due with a grace period from now on of the configured length, and it has access.
pub payment_failed-revives :
    (library : Library) (settings : Settings) (now : ℕ) (event : EventData) (db : Database)
    (row : Row)
    → row.item.status ≡ canceled
    → row.item.grace_ends_at ≡ none
    → 0 < settings.grace_days
    → (has_paid_access (some (effective_subscription row.item now)) now ≡ false)
      × (payment_made library settings now event (some row) db ≡ returned db)
      × ((s : BillingSubscription) × ((payment_failed library settings now event
              (some row)
              db).subscriptions
            ≡ put_back row s)
          × (s.status ≡ past_due)
          × (s.grace_ends_at ≡ some (now + settings.grace_days * 86400))
          × (has_paid_access (some (effective_subscription s now)) now ≡ true))
unfolding payment_made payment_failed has_paid_access effective_subscription effective_values
payment_failed-revives library settings now event db row was_canceled no_grace some_days = (
  rw was_canceled refl,
  rw was_canceled refl,
  (_, refl, refl, rw no_grace refl, rw no_grace (ground (arith, some_days))),
)
