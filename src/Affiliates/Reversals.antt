-- ===== src/Affiliates/Reversals.antt =====
-- Refunds and disputes, the release of commissions that are due, and a run of requests:
-- `reverse_commission`, and what `dashboard` writes, of src/app/domains/affiliates/service.py, with
-- `release_due_commissions` of repository.py.
use signalsync_be.Base.{
  ℕ, Bool, false, ◌&&◌, ◌||◌, Option, none, some, List, [], ◌∷◌, leb, ◌==◌, max, if◌then◌else◌,
  FoundRow, locate, put_back,
}
use signalsync_be.Base.Int.{ℤ, pos, pos_part, leb_ℤ}
use signalsync_be.Base.Python.{Outcome, returned, raised, ◌>>=◌}
use signalsync_be.Base.Text.{Text, text_eq}
use signalsync_be.Billing.{BillingSubscription, BillingError}
use signalsync_be.Billing.Payload.{EventData, Library, truthy, ◌or_else◌, str_or_none}
use signalsync_be.Affiliates.{
  AffiliateCommission, AffiliateTables, available, reversed, ReversalReason, is_pending, is_closed,
  money, get_or_create_settings, with_settings,
}
use signalsync_be.Affiliates.Commissions.{
  payment_id, Answer, on_some, create_commission_from_paid_invoice,
}

abbrev pub same_payment : Option Text → Text → Bool
same_payment none payment = false
same_payment (some own) payment = text_eq own payment

unfoldable pub row_by_payment :
    Option Text → List AffiliateCommission → Option (FoundRow AffiliateCommission)
unfolding locate
row_by_payment none commissions = none
row_by_payment (some payment) commissions =
    locate (λ c. same_payment c.provider_payment_id payment) commissions

abbrev pub first_some {ℓ} : {A : Type ℓ} → Option A → Option A → Option A
first_some none b = b
first_some (some a) b = some a

-- `get_commission_for_reversal`
unfoldable pub get_commission_for_reversal :
    Option Text → Option Text → List AffiliateCommission → Option (FoundRow AffiliateCommission)
unfolding locate row_by_payment
get_commission_for_reversal payment none commissions = row_by_payment payment commissions
get_commission_for_reversal payment (some invoice) commissions =
    first_some (locate (λ c. text_eq c.provider_invoice_id invoice) commissions)
      (row_by_payment payment commissions)

-- `item.commission_amount * min(1, refund_base / item.commission_base)` in cents, the ratio 1 where
-- the base is 0
unfoldable pub reversed_share : Library → ℤ → AffiliateCommission → ℤ
reversed_share library refund_base item =
    if item.commission_base == 0 || leb_ℤ (pos item.commission_base) refund_base
    then pos item.commission_amount
    else library.proportion item.commission_amount refund_base item.commission_base

unfoldable pub reverse_item :
    Library → ℕ → ReversalReason → ℤ → AffiliateCommission → AffiliateCommission
unfolding reversed_share
reverse_item library now reason refund_base item =
    let reversed_amount =
      max item.reversed_amount (pos_part (reversed_share library refund_base item)) in
    record item {
      reversed_amount = reversed_amount;
      status = if leb item.commission_amount reversed_amount then reversed else item.status;
      reversed_at = some now;
      reversal_reason = some reason;
    }

-- `_money(data.get("amount") or data.get("refund_amount") or item.commission_base)`
unfoldable pub refund_of : Library → EventData → AffiliateCommission → Outcome BillingError ℤ
unfolding truthy ◌or_else◌ money
refund_of library event item =
    if truthy (event.amount or_else event.refund_amount)
    then money library (event.amount or_else event.refund_amount)
    else returned (pos item.commission_base)

unfoldable pub reverse_commission :
    Library → ℕ → ReversalReason → EventData → AffiliateTables → Answer
unfolding payment_id str_or_none get_commission_for_reversal refund_of reverse_item
reverse_commission library now reason event tables =
    let payment =
      first_some (payment_id library event) (str_or_none library event.nested_payment_own_id) in
    let invoice = str_or_none library event.invoice_id in
    on_some (get_commission_for_reversal payment invoice tables.commissions) tables λ row.
      if is_closed row.item.status
      then returned (none, tables)
      else refund_of library event row.item >>= λ refund_base.
          let changed = reverse_item library now reason refund_base row.item in
          returned (some changed, record tables { commissions = put_back row changed })

abbrev pub is_due : ℕ → ℕ → AffiliateCommission → Bool
is_due user_id now c = c.affiliate_user_id == user_id && is_pending c.status && leb c.release_at now

-- `release_due_commissions`
unfoldable pub release_due : ℕ → ℕ → List AffiliateCommission → List AffiliateCommission
release_due user_id now [] = []
release_due user_id now (c ∷ commissions) =
    let rest = release_due user_id now commissions in
    if is_due user_id now c then record c { status = available } ∷ rest else c ∷ rest

-- A request of the provider or of a user that can change the commissions, with its time.
pub data Request : Type 0 where
  invoice_paid : ℕ → EventData → Request
  money_back : ℕ → ReversalReason → EventData → Request
  dashboard_opened : ℕ → ℕ → Request

-- The tables that are committed: an exception leaves them as they were.
abbrev pub committed : AffiliateTables → Answer → AffiliateTables
committed tables (returned (_, changed)) = changed
committed tables (raised _) = tables

unfoldable pub serve :
    Library → List BillingSubscription → Request → AffiliateTables → AffiliateTables
unfolding create_commission_from_paid_invoice reverse_commission release_due get_or_create_settings
serve library subscriptions (invoice_paid now event) tables =
    committed tables (create_commission_from_paid_invoice library now event subscriptions tables)
serve library subscriptions (money_back now reason event) tables =
    committed tables (reverse_commission library now reason event tables)
serve library subscriptions (dashboard_opened now user_id) tables = record (with_settings tables) {
  commissions = release_due user_id now tables.commissions;
}

unfoldable pub serve_all :
    Library → List BillingSubscription → List Request → AffiliateTables → AffiliateTables
unfolding serve
serve_all library subscriptions [] tables = tables
serve_all library subscriptions (request ∷ requests) tables =
    serve_all library subscriptions requests (serve library subscriptions request tables)
