-- ===== src/Checkout/Examples.antt =====
-- Examples for checkouts (src/app/domains/billing/service.py).
use signalsync_be.Base.{◌≡◌, refl, true, none, some, [], ltb, if◌then◌else◌}
use signalsync_be.Base.Int.{pos}
use signalsync_be.Base.Python.{returned}
use signalsync_be.Base.Text.{Text, codes}
use signalsync_be.Billing.{BillingSubscription, journal, copy, effective_values}
use signalsync_be.Billing.Payload.{text}
use signalsync_be.Billing.Sample.{subscription}
use signalsync_be.Webhooks.{Database, apply_plan}
use signalsync_be.Checkout.{
  GuardEntry, CheckoutState, Reachable, Provider, checkout, open_checkout, acquire, live, schedule,
}
use signalsync_be.Checkout.Single.{open_checkout-single}
use signalsync_be.Checkout.Scheduled.{schedule-waits}

abbrev db : Database
db = record {
  events = [];
  subscriptions = [];
  users = [];
  affiliates = record { settings = none; profiles = []; attributions = []; commissions = [] };
}

abbrev reachable : Reachable
reachable = record { at_acquire = true; at_store = true; at_release = true }

abbrev url : Text
url = codes "https://pay/1"

abbrev provider : Provider
provider = record { checkout_url = some (text url); change_plan = none }

abbrev nothing : Provider
nothing = record { checkout_url = none; change_plan = none }

abbrev start : CheckoutState
start = record { key = none; db = db }

abbrev sent : CheckoutState
sent = record { key = some (record { value = url; expires_at = 3700 }); db = db }

starts : open_checkout 100 reachable provider start ≡ (returned (checkout url), sent)
unfolding open_checkout acquire live
starts = refl

still_there : live 3000 sent.key ≡ some (record { value = url; expires_at = 3700 })
unfolding live
still_there = refl

open_checkout-single_example :
    ((held : GuardEntry) × (live 100 sent.key ≡ some held))
    × (open_checkout 3000 reachable nothing sent ≡ (returned (checkout url), sent))
open_checkout-single_example =
    open_checkout-single 100 3000 reachable reachable provider nothing start sent url
      (record { value = url; expires_at = 3700 }) starts refl still_there

-- A change to the journal plan waits already.
abbrev waiting_before : BillingSubscription
waiting_before = record subscription {
  pending_plan = some journal;
  pending_copy_account_limit = some (pos 0);
  pending_effective_at = some 2000;
}

schedule-waits_example :
    let waiting = schedule (codes "c1") copy (pos 1) waiting_before in
    (effective_values waiting 1000 ≡ (if ltb 1000 2000 then (copy, pos 2) else (copy, pos 1)))
    × (effective_values (apply_plan waiting copy (pos 1) 1000) 1000 ≡ effective_values waiting 1000)
schedule-waits_example = schedule-waits waiting_before (codes "c1") copy (pos 1) 2000 1000 refl
