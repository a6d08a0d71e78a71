-- ===== src/Webhooks/Examples.antt =====
-- Examples for the webhook of the payment provider (src/app/domains/billing/service.py).
use signalsync_be.Base.{
  ◌+◌, ◌*◌, ◌≡◌, refl, true, false, none, some, List, [], ◌∷◌, All, put_back, locate, arith,
}
use signalsync_be.Base.Python.{returned, raised}
use signalsync_be.Base.Text.{codes}
use signalsync_be.Billing.{
  canceled, past_due, not_a_user, BillingSubscription, has_paid_access, effective_subscription,
}
use signalsync_be.Billing.Payload.{text}
use signalsync_be.Billing.Sample.{catalog, library, library-share, blank, subscription}
use signalsync_be.Affiliates.{AffiliateTables, get_or_create_settings, count_qualifying_commissions}
use signalsync_be.Affiliates.Sound.{IsSound}
use signalsync_be.Webhooks.{
  invoice_payment_failed, invoice_paid, subscription_created, Database, Settings,
}
use signalsync_be.Webhooks.Events.{
  Envelope, Row, process_webhook_event, Delivery, process_all, payment_failed, payment_made,
}
use signalsync_be.Webhooks.Changes.{HasGrace}
use signalsync_be.Webhooks.Settled.{process_webhook_event-once}
use signalsync_be.Webhooks.Grace.{process_all-keeps, payment_failed-revives}

abbrev settings : Settings
settings = record { catalog = returned catalog; grace_days = 3 }

abbrev no_tables : AffiliateTables
no_tables = record { settings = none; profiles = []; attributions = []; commissions = [] }

abbrev db : Database
db = record {
  events = [];
  subscriptions = subscription ∷ [];
  users = record { id = 7; email = codes "a@b.c" } ∷ [];
  affiliates = no_tables;
}

abbrev failed : Envelope
failed = record {
  id = text (codes "e1");
  event_type = some invoice_payment_failed;
  content = some (record blank { nested_subscription_id = text (codes "s1") });
}

abbrev paid_later : Envelope
paid_later = record {
  id = text (codes "e2");
  event_type = some invoice_paid;
  content = some (record blank { subscription_id = text (codes "s1") });
}

abbrev after_failure : Database
after_failure = (process_webhook_event library settings 1000 failed db).1

abbrev deliveries : List Delivery
deliveries =
    record { now = 1000; envelope = failed }
    ∷ record { now = 2000; envelope = paid_later }
    ∷ record { now = 3000; envelope = failed }
    ∷ []

done : (process_webhook_event library settings 1000 failed db).0 ≡ returned true
unfolding process_webhook_event
done = refl

process_webhook_event-once_example :
    let after = process_all library settings deliveries after_failure in
    process_webhook_event library settings 4000 failed after ≡ (returned false, after)
process_webhook_event-once_example =
    process_webhook_event-once library settings 1000 failed db deliveries 4000 done

-- A subscription of somebody who is no user.
abbrev stranger : Envelope
stranger = record {
  id = text (codes "e3");
  event_type = some subscription_created;
  content = some (record blank { subscription_id = text (codes "s9") });
}

failed_with : (process_webhook_event library settings 1000 stranger db).0 ≡ raised not_a_user
unfolding process_webhook_event locate
failed_with = refl

process_all-keeps_example :
    let after = process_all library settings deliveries db in
    All HasGrace after.subscriptions × IsSound 12 after.affiliates.commissions
unfolding count_qualifying_commissions get_or_create_settings
process_all-keeps_example =
    process_all-keeps library settings deliveries db library-share (refl, tt)
      (record { once = λ i. omega arith; capped = λ u. omega arith; within = tt })

abbrev ended : Row
ended = record { before = []; item = record subscription { status = canceled }; after = [] }

payment_failed-revives_example :
    (has_paid_access (some (effective_subscription ended.item 1000)) 1000 ≡ false)
    × (payment_made library settings 1000 blank (some ended) db ≡ returned db)
    × ((s : BillingSubscription) × ((payment_failed library settings 1000 blank
            (some ended)
            db).subscriptions
          ≡ put_back ended s)
        × (s.status ≡ past_due)
        × (s.grace_ends_at ≡ some (1000 + settings.grace_days * 86400))
        × (has_paid_access (some (effective_subscription s 1000)) 1000 ≡ true))
payment_failed-revives_example =
    payment_failed-revives library settings 1000 blank db ended refl refl (omega arith)
