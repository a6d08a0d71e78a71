-- ===== src/Webhooks/Settled.antt =====
-- Each event of the provider takes effect at most once, and as a whole or not at all
-- (src/app/domains/billing/service.py).
use signalsync_be.Base.{
  ℕ, ◌≡◌, refl, inl, inr, Bool, true, false, Option, none, some, List, [], ◌∷◌, any, Bool-cases,
  or_true, or_left,
}
use signalsync_be.Base.Python.{Outcome, returned, raised, Gives}
use signalsync_be.Base.Text.{Text, text_eq, text_eq_iff}
use signalsync_be.Billing.{BillingError}
use signalsync_be.Billing.Payload.{Value, text, null, whole, other, EventData, Library}
use signalsync_be.Webhooks.{EventType, Database, Settings}
use signalsync_be.Webhooks.Changes.{IsChange}
use signalsync_be.Webhooks.Handled.{handle_event-IsChange}
use signalsync_be.Webhooks.Events.{
  Envelope, close, process_claimed, process_fields, process_webhook_event, Delivery, process_all,
}

-- What a delivery can come to.
abbrev pub IsStep : Library → Database → Outcome BillingError Bool × Database → Type 0
IsStep library db (raised error, after) = after ≡ db
IsStep library db (returned false, after) = after ≡ db
IsStep library db (returned true, after) =
    (id : Text) × (claimed : Database) × (claimed ≡ record db { events = id ∷ db.events })
    × IsChange library claimed after

close-IsStep :
    (library : Library) (db : Database) (id : Text) (result : Outcome BillingError Database)
    → Gives (IsChange library (record db { events = id ∷ db.events })) result
    → IsStep library db (close db result)
close-IsStep library db id (returned changed) h = (id, _, refl, h.given changed refl)
close-IsStep library db id (raised error) h = refl

process_claimed-IsStep :
    (library : Library) (settings : Settings) (now : ℕ) (id : Text) (event_type : EventType)
    (event : EventData) (db : Database)
    → IsStep library db (process_claimed library settings now id event_type event db)
unfolding process_claimed
process_claimed-IsStep library settings now id event_type event db = elim (Bool-cases seen) [
  | inl e ↦ rw e refl
  | inr e ↦ rw e (
      close-IsStep library db id _ (
        handle_event-IsChange library settings now event (record db { events = id ∷ db.events })
          event_type))
]
  where
    seen : Bool
    seen = any (λ known. text_eq id known) db.events

process_fields-IsStep :
    (library : Library) (settings : Settings) (now : ℕ) (id : Value) (event_type : Option EventType)
    (content : Option EventData) (db : Database)
    → IsStep library db (process_fields library settings now id event_type content db)
process_fields-IsStep library settings now (text id) (some event_type) (some event) db =
    process_claimed-IsStep library settings now id event_type event db
process_fields-IsStep library settings now (text id) (some event_type) none db = refl
process_fields-IsStep library settings now (text id) none content db = refl
process_fields-IsStep library settings now null event_type content db = refl
process_fields-IsStep library settings now (whole n) event_type content db = refl
process_fields-IsStep library settings now (other truth n) event_type content db = refl

pub process_webhook_event-IsStep :
    (library : Library) (settings : Settings) (now : ℕ) (envelope : Envelope) (db : Database)
    → IsStep library db (process_webhook_event library settings now envelope db)
unfolding process_webhook_event
process_webhook_event-IsStep library settings now envelope db =
    process_fields-IsStep library settings now envelope.id envelope.event_type envelope.content db

-- The id of an envelope that was processed is among the claimed events.
abbrev pub IsClaimed : Value → Database → Type 0
IsClaimed (text id) db = any (λ known. text_eq id known) db.events ≡ true
IsClaimed _ db = ⊥

step-IsClaimed :
    (library : Library) (id : Value) (db : Database) (step : Outcome BillingError Bool × Database)
    → IsStep library db step
    → IsClaimed id db
    → IsClaimed id step.1
step-IsClaimed library (text id) db (raised error, after) h claimed = rw h claimed
step-IsClaimed library (text id) db (returned false, after) h claimed = rw h claimed
step-IsClaimed library (text id) db (returned true, after) (own, start, is_start, h) claimed =
    rw (h.events, is_start) (or_true (text_eq id own) claimed)
step-IsClaimed library null db step h claimed = claimed
step-IsClaimed library (whole n) db step h claimed = claimed
step-IsClaimed library (other truth n) db step h claimed = claimed

process_all-IsClaimed :
    (library : Library) (settings : Settings) (id : Value) (deliveries : List Delivery)
    (db : Database)
    → IsClaimed id db
    → IsClaimed id (process_all library settings deliveries db)
unfolding process_all
process_all-IsClaimed library settings id [] db h = h
process_all-IsClaimed library settings id (d ∷ deliveries) db h =
    process_all-IsClaimed library settings id deliveries
      (process_webhook_event library settings d.now d.envelope db).1
      (step-IsClaimed library id db (process_webhook_event library settings d.now d.envelope db)
        (process_webhook_event-IsStep library settings d.now d.envelope db) h)

close-claims :
    (library : Library) (db : Database) (id : Text) (result : Outcome BillingError Database)
    → Gives (IsChange library (record db { events = id ∷ db.events })) result
    → (close db result).0 ≡ returned true
    → any (λ known. text_eq id known) (close db result).1.events ≡ true
close-claims library db id (returned changed) h e =
    rw (h.given changed refl).events (or_left _ ((text_eq_iff id id).1 refl))
close-claims library db id (raised error) h e = absurd (cc e)

process_claimed-claims :
    (library : Library) (settings : Settings) (now : ℕ) (id : Text) (event_type : EventType)
    (event : EventData) (db : Database)
    → (process_claimed library settings now id event_type event db).0 ≡ returned true
    → any
        (λ known. text_eq id known)
        (process_claimed library settings now id event_type event db).1.events
      ≡ true
unfolding process_claimed
process_claimed-claims library settings now id event_type event db h = elim (Bool-cases seen) [
  | inl e ↦ rw e e
  | inr e ↦ rw e (
      close-claims library db id _
        (handle_event-IsChange library settings now event (record db { events = id ∷ db.events })
          event_type)
        (rw e at h))
]
  where
    seen : Bool
    seen = any (λ known. text_eq id known) db.events

-- The first delivery that is processed, and any later one of the same envelope.
abbrev IsDone : Library → Settings → Value → Option EventType → Option EventData → Database → Type 0
IsDone library settings id event_type content db =
    (later : ℕ)
    → process_fields library settings later id event_type content db ≡ (returned false, db)

process_fields-IsDone :
    (library : Library) (settings : Settings) (now : ℕ) (id : Value) (event_type : Option EventType)
    (content : Option EventData) (db : Database) (later : ℕ)
    → (process_fields library settings now id event_type content db).0 ≡ returned true
    → IsClaimed id (process_fields library settings now id event_type content db).1
      × ((after : Database)
          → IsClaimed id after
          → IsDone library settings id event_type content after)
unfolding process_claimed
process_fields-IsDone library settings now (text id) (some event_type) (some event) db later h = (
  process_claimed-claims library settings now id event_type event db h,
  λ after seen now'. rw seen refl,
)
process_fields-IsDone library settings now (text id) (some event_type) none db later h =
    absurd (cc h)
process_fields-IsDone library settings now (text id) none content db later h = absurd (cc h)
process_fields-IsDone library settings now null event_type content db later h = absurd (cc h)
process_fields-IsDone library settings now (whole n) event_type content db later h = absurd (cc h)
process_fields-IsDone library settings now (other truth n) event_type content db later h =
    absurd (cc h)

-- An event that was processed is processed for good: after any further deliveries, another delivery
-- of the same envelope at any time is answered as known and changes nothing.
pub process_webhook_event-once :
    (library : Library) (settings : Settings) (now : ℕ) (envelope : Envelope) (db : Database)
    (deliveries : List Delivery) (later : ℕ)
    → (process_webhook_event library settings now envelope db).0 ≡ returned true
    → let after =
        process_all library settings deliveries
          (process_webhook_event library settings now envelope db).1 in
      process_webhook_event library settings later envelope after ≡ (returned false, after)
unfolding process_webhook_event
process_webhook_event-once library settings now envelope db deliveries later h =
    let (claimed, done) =
      process_fields-IsDone library settings now envelope.id envelope.event_type envelope.content db
        later h in
    done _ (process_all-IsClaimed library settings envelope.id deliveries _ claimed) later
