-- ===== src/Webhooks/Handled.antt =====
-- Every event that the handler of the webhook handles leaves such a change
-- (src/app/domains/billing/service.py).
use signalsync_be.Base.{
  ℕ, refl, inl, inr, Bool, true, false, Option, none, some, List, ◌++◌, ◌==◌, any, IsRowOf,
  locate-IsRowOf, put_back, Bool-cases,
}
use signalsync_be.Base.Python.{returned, Gives, Gives-returned, Gives-raised, Gives-bind, Gives-if}
use signalsync_be.Base.Text.{text_eq}
use signalsync_be.Billing.{BillingSubscription, active, past_due, BillingError}
use signalsync_be.Billing.Catalog.{ProductCatalog, entitlement_for}
use signalsync_be.Billing.Payload.{EventData, Library, str, truthy, ◌or_else◌}
use signalsync_be.Affiliates.{ReversalReason, refund, dispute}
use signalsync_be.Affiliates.Commissions.{create_commission_from_paid_invoice}
use signalsync_be.Affiliates.Reversals.{reverse_commission, committed}
use signalsync_be.Affiliates.Effects.{create_commission-IsAddition, reverse_commission-IsReversal}
use signalsync_be.Affiliates.Once.{addition-IsKept, reversal-IsKept}
use signalsync_be.Webhooks.{
  EventType, subscription_created, subscription_updated, subscription_deleted,
  invoice_payment_failed, invoice_paid, refund_paid, dispute_created, other_event, User, Database,
  Settings, is_canceled, apply_subscription_payload, status_of, times_of, as_text, or_unlinked,
  existing_or, written,
}
use signalsync_be.Webhooks.Events.{
  Row, user_for_new_subscription, save_row, apply_to, create_for, first_row, found_row, row_of,
  subscription_event, payment_failed, payment_made, reversal, handle_event,
}
use signalsync_be.Webhooks.Changes.{
  HasGrace, IsChange, unchanged, grace_for-Fits, IsAmong, row-IsAmong, replaced, sound-added,
}

module _ (library : Library) (settings : Settings) (now : ℕ) (event : EventData)
    (db : Database) where
  apply_subscription_payload-HasGrace :
      (catalog : ProductCatalog) (existing : Option BillingSubscription) (deleted : Bool)
      (rows : List BillingSubscription)
      → Gives HasGrace
          (apply_subscription_payload library settings now event catalog existing deleted rows)
  unfolding apply_subscription_payload written
  apply_subscription_payload-HasGrace catalog existing deleted rows =
      Gives-bind HasGrace (as_text (event.subscription_id or_else event.id)) λ provider_id _.
        Gives-bind HasGrace (as_text (event.product_id or_else event.nested_product_id))
          λ product _. Gives-bind HasGrace (entitlement_for catalog product) λ entitlement _.
            Gives-bind HasGrace (or_unlinked (existing_or existing provider_id rows)) λ s _.
              Gives-bind HasGrace (status_of library event.status deleted) λ status _.
                Gives-bind HasGrace (times_of library event) λ times _.
                  Gives-returned HasGrace
                    (written library settings now event provider_id product entitlement status times
                      s)
                    (grace_for-Fits status s.grace_ends_at settings.grace_days now)

  apply_to-IsChange :
      (deleted : Bool) (row : Row)
      → IsAmong library db row
      → Gives (IsChange library db) (apply_to library settings now event deleted db row)
  unfolding apply_to save_row
  apply_to-IsChange deleted row around =
      Gives-bind (IsChange library db) settings.catalog λ catalog _.
        Gives-bind (IsChange library db)
          (apply_subscription_payload library settings now event catalog (some row.item) deleted
            db.subscriptions)
          λ s made.
            Gives-if (IsChange library db)
              (any (λ o. text_eq o.provider_subscription_id s.provider_subscription_id)
                (row.before ++ row.after))
              (Gives-raised (IsChange library db) _)
              (Gives-returned (IsChange library db) _ (record {
                events = refl;
                grace = replaced library db row s around (
                    (apply_subscription_payload-HasGrace catalog (some row.item) deleted
                        db.subscriptions).given
                      s made);
                sound = λ limit fair h. h;
              }))

  create_for-IsChange :
      (user : Option User) (row : Option Row)
      → IsRowOf db.subscriptions row
      → Gives (IsChange library db) (create_for library settings now event user db row)
  unfolding create_for
  create_for-IsChange none row is_row = Gives-raised (IsChange library db) _
  create_for-IsChange (some user) none is_row =
      Gives-bind (IsChange library db) settings.catalog λ catalog _.
        Gives-bind (IsChange library db) (entitlement_for catalog (str library event.product_id))
          λ entitlement _.
            apply_to-IsChange false
              (first_row library settings now event user (str library event.product_id) entitlement
                db)
              λ h. (tt, h)
  create_for-IsChange (some user) (some row) is_row =
      Gives-if (IsChange library db) _
        (Gives-returned (IsChange library db) db (unchanged library db))
        (apply_to-IsChange false row (row-IsAmong library db row is_row))

  row_of-IsRowOf :
      (user : Option User) → IsRowOf db.subscriptions (row_of library settings now event user db)
  row_of-IsRowOf none = tt
  row_of-IsRowOf (some user) = locate-IsRowOf (λ s. s.user_id == user.id) db.subscriptions

  subscription_event-IsChange :
      (event_type : EventType) (row : Option Row)
      → IsRowOf db.subscriptions row
      → Gives
          (IsChange library db)
          (subscription_event library settings now event event_type row db)
  unfolding subscription_event
  subscription_event-IsChange subscription_created none is_row =
      (let user = user_for_new_subscription library event db.users in
        create_for-IsChange user (row_of library settings now event user db) (row_of-IsRowOf user))
  subscription_event-IsChange _ none is_row =
      Gives-returned (IsChange library db) db (unchanged library db)
  subscription_event-IsChange subscription_deleted (some row) is_row =
      apply_to-IsChange true row (row-IsAmong library db row is_row)
  subscription_event-IsChange _ (some row) is_row =
      apply_to-IsChange false row (row-IsAmong library db row is_row)

  payment_failed-IsChange :
      (row : Option Row)
      → IsRowOf db.subscriptions row
      → Gives {E = BillingError}
          (IsChange library db)
          (returned (payment_failed library settings now event row db))
  unfolding payment_failed
  payment_failed-IsChange none is_row =
      Gives-returned (IsChange library db) db (unchanged library db)
  payment_failed-IsChange (some row) is_row = Gives-returned (IsChange library db) _ (record {
    events = refl;
    grace =
        replaced library db row _ (row-IsAmong library db row is_row)
          (grace_for-Fits past_due row.item.grace_ends_at settings.grace_days now);
    sound = λ limit fair h. h;
  })

  payment_made-IsChange :
      (row : Option Row)
      → IsRowOf db.subscriptions row
      → Gives (IsChange library db) (payment_made library settings now event row db)
  unfolding payment_made
  payment_made-IsChange none is_row = Gives-returned (IsChange library db) db (unchanged library db)
  payment_made-IsChange (some row) is_row =
      Gives-if (IsChange library db) (is_canceled row.item.status)
        (Gives-returned (IsChange library db) db (unchanged library db))
        (sound-added library settings now event db rows _
          (λ limit fair k.
            addition-IsKept limit db.affiliates
              (committed db.affiliates
                (create_commission_from_paid_invoice library now event rows db.affiliates))
              (create_commission-IsAddition library now event db.affiliates rows) k)
          (replaced library db row _ (row-IsAmong library db row is_row) refl))
    where
      rows : List BillingSubscription
      rows = put_back row (record row.item { status = active; grace_ends_at = none })

  reversal-IsChange :
      (reason : ReversalReason)
      → Gives (IsChange library db) (reversal library settings now event reason db)
  unfolding reversal
  reversal-IsChange reason =
      sound-added library settings now event db db.subscriptions _
        (λ limit fair k.
          reversal-IsKept limit library now reason db.affiliates
            (committed db.affiliates (reverse_commission library now reason event db.affiliates))
            fair (reverse_commission-IsReversal library now reason event db.affiliates) k)
        (λ h. h)

  found_row-IsRowOf : IsRowOf db.subscriptions (found_row library settings now event db)
  found_row-IsRowOf = elim (Bool-cases (truthy (event.subscription_id or_else event.id))) [
    | inl e ↦ rw e (locate-IsRowOf _ db.subscriptions)
    | inr e ↦ rw e tt
  ]

  pub handle_event-IsChange :
      (event_type : EventType)
      → Gives (IsChange library db) (handle_event library settings now event event_type db)
  unfolding handle_event
  handle_event-IsChange invoice_payment_failed =
      payment_failed-IsChange _ (locate-IsRowOf _ db.subscriptions)
  handle_event-IsChange invoice_paid = payment_made-IsChange _ (locate-IsRowOf _ db.subscriptions)
  handle_event-IsChange refund_paid = reversal-IsChange refund
  handle_event-IsChange dispute_created = reversal-IsChange dispute
  handle_event-IsChange other_event = Gives-returned (IsChange library db) db (unchanged library db)
  handle_event-IsChange subscription_created =
      subscription_event-IsChange subscription_created _ found_row-IsRowOf
  handle_event-IsChange subscription_updated =
      subscription_event-IsChange subscription_updated _ found_row-IsRowOf
  handle_event-IsChange subscription_deleted =
      subscription_event-IsChange subscription_deleted _ found_row-IsRowOf
