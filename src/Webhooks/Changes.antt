-- ===== src/Webhooks/Changes.antt =====
-- What the handler of an event leaves: where it returns, the claimed events are those it was given,
-- the grace periods still fit the states of the subscriptions, and the commissions are still sound
-- (src/app/domains/billing/service.py).
use signalsync_be.Base.{
  ℕ, ◌≡◌, refl, true, Option, none, some, List, All, All-split, All-join, IsRowOf, is_some,
  put_back,
}
use signalsync_be.Base.Python.{returned, raised, Gives, Gives-returned, Gives-raised}
use signalsync_be.Billing.{BillingSubscription, BillingStatus, active, past_due, unpaid, canceled}
use signalsync_be.Billing.Payload.{EventData, Library}
use signalsync_be.Affiliates.Commissions.{Answer}
use signalsync_be.Affiliates.Reversals.{committed}
use signalsync_be.Affiliates.Sound.{IsProportional}
use signalsync_be.Affiliates.Once.{IsKept}
use signalsync_be.Webhooks.{Database, Settings, grace_for}
use signalsync_be.Webhooks.Events.{Row, with_affiliates}

-- An active subscription has no grace period, one that is past due has.
abbrev pub Fits : BillingStatus → Option ℕ → Type 0
Fits active grace = grace ≡ none
Fits past_due grace = is_some grace ≡ true
Fits unpaid grace = Unit
Fits canceled grace = Unit

abbrev pub HasGrace : BillingSubscription → Type 0
HasGrace s = Fits s.status s.grace_ends_at

pub grace_for-Fits :
    (status : BillingStatus) (old : Option ℕ) (days now : ℕ)
    → Fits status (grace_for status old days now)
grace_for-Fits active old days now = refl
grace_for-Fits past_due none days now = refl
grace_for-Fits past_due (some ends) days now = refl
grace_for-Fits unpaid old days now = tt
grace_for-Fits canceled old days now = tt

module _ (library : Library) where
  pub record IsChange (db changed : Database) : Type 0 where
    pub events : changed.events ≡ db.events
    pub grace : All HasGrace db.subscriptions → All HasGrace changed.subscriptions
    pub sound :
        (limit : ℕ)
        → IsProportional library
        → IsKept limit db.affiliates
        → IsKept limit changed.affiliates

  pub unchanged : (db : Database) → IsChange db db
  unchanged db = record { events = refl; grace = λ h. h; sound = λ limit fair h. h }

  -- Where the rows around a row fit, and the row that replaces it fits, all do.
  abbrev pub IsAmong : Database → Row → Type 0
  IsAmong db row = All HasGrace db.subscriptions → All HasGrace row.before × All HasGrace row.after

  pub row-IsAmong :
      (db : Database) (row : Row) → IsRowOf db.subscriptions (some row) → IsAmong db row
  row-IsAmong db row is_row h =
      let (before, _, after) = All-split HasGrace row.before row.after (rw is_row at h) in
      (before, after)

  pub replaced :
      (db : Database) (row : Row) (s : BillingSubscription)
      → IsAmong db row
      → HasGrace s
      → All HasGrace db.subscriptions
      → All HasGrace (put_back row s)
  replaced db row s around fits h =
      All-join HasGrace row.before row.after (around h).0 fits (around h).1

  pub sound-added :
      (settings : Settings) (now : ℕ) (event : EventData) (db : Database)
      (rows : List BillingSubscription) (answer : Answer)
      → ((limit : ℕ)
          → IsProportional library
          → IsKept limit db.affiliates
          → IsKept limit (committed db.affiliates answer))
      → (All HasGrace db.subscriptions → All HasGrace rows)
      → Gives
          (IsChange db)
          (with_affiliates library settings now event (record db { subscriptions = rows }) answer)
  sound-added settings now event db rows (returned (_, affiliates)) h k =
      Gives-returned (IsChange db) _ (record { events = refl; grace = k; sound = h })
  sound-added settings now event db rows (raised error) h k = Gives-raised (IsChange db) error
