-- ===== src/Affiliates/Once.antt =====
-- Whatever the order of paid invoices, refunds, disputes and dashboards, an invoice has at most one
-- commission, a referred user has at most the configured number of commissions that count, and no
-- commission is reversed beyond its amount (src/app/domains/affiliates/service.py).
use signalsync_be.Base.{
  ℕ, ◌≡◌, refl, sym, ◌∙◌, inl, inr, Bool, true, false, List, [], ◌∷◌, All, Bool-cases, arith,
}
use signalsync_be.Billing.{BillingSubscription}
use signalsync_be.Billing.Payload.{Library}
use signalsync_be.Affiliates.{
  AffiliateCommission, AffiliateTables, CommissionStatus, pending, available, paid, reversed,
  ReversalReason, is_reversed, is_pending, count, qualifies, count_qualifying_commissions,
  get_or_create_settings,
}
use signalsync_be.Affiliates.Reversals.{
  release_due, is_due, Request, invoice_paid, money_back, dashboard_opened, committed,
  reverse_commission, serve, serve_all,
}
use signalsync_be.Affiliates.Commissions.{create_commission_from_paid_invoice}
use signalsync_be.Affiliates.Effects.{
  months, IsAddition, IsReversal, create_commission-IsAddition, reverse_commission-IsReversal,
}
use signalsync_be.Affiliates.Sound.{
  IsProportional, on_invoice, IsWithin, IsSound, added-IsSound, changed, reversed-IsSound,
}

pending_status : (s : CommissionStatus) → is_pending s ≡ true → is_reversed s ≡ false
pending_status pending h = refl
pending_status available h = refl
pending_status paid h = refl
pending_status reversed h = sym h

module _ (user_id now : ℕ) where
  count-release :
      (test : AffiliateCommission → Bool) (commissions : List AffiliateCommission)
      → ((c : AffiliateCommission)
          → is_due user_id now c ≡ true
          → test (record c { status = available }) ≡ test c)
      → count test (release_due user_id now commissions) ≡ count test commissions
  unfolding release_due
  count-release test [] h = refl
  count-release test (c ∷ commissions) h =
      let rest = count-release test commissions h in
      elim (Bool-cases (is_due user_id now c)) [
        | inl e ↦ rw e (rw (h c e, rest) refl)
        | inr e ↦ rw e (rw rest refl)
      ]

  IsWithin-release :
      (commissions : List AffiliateCommission)
      → All IsWithin commissions
      → All IsWithin (release_due user_id now commissions)
  unfolding release_due
  IsWithin-release [] h = tt
  IsWithin-release (c ∷ commissions) h = elim (Bool-cases (is_due user_id now c)) [
    | inl e ↦ rw e ((h.0.0, inl refl), IsWithin-release commissions h.1)
    | inr e ↦ rw e (h.0, IsWithin-release commissions h.1)
  ]

  pending_qualifies :
      (user : ℕ) (c : AffiliateCommission)
      → is_due user_id now c ≡ true
      → qualifies user (record c { status = available }) ≡ qualifies user c
  pending_qualifies user c h =
      let not_reversed = pending_status c.status (ground (arith, h)) in rw not_reversed refl

  released-IsSound :
      {limit : ℕ} (commissions : List AffiliateCommission)
      → IsSound limit commissions
      → IsSound limit (release_due user_id now commissions)
  unfolding count_qualifying_commissions
  released-IsSound commissions s = record {
    once =
        λ invoice. rw (count-release (on_invoice invoice) commissions λ c h. refl) (s.once invoice);
    capped = λ user.
        rw (count-release (qualifies user) commissions (pending_qualifies user)) (s.capped user);
    within = IsWithin-release commissions s.within;
  }

-- The configured number of months is as before, and the commissions are sound under it.
abbrev pub IsKept : ℕ → AffiliateTables → Type 0
IsKept limit tables = (months tables ≡ limit) × IsSound limit tables.commissions

module _ (limit : ℕ) where
  pub addition-IsKept :
      (old new : AffiliateTables) → IsAddition old new → IsKept limit old → IsKept limit new
  addition-IsKept old new (same, inl e) (m, s) = (same ∙ m, rw e s)
  addition-IsKept old new (same, inr (c, e, a)) (m, s) =
      (same ∙ m, rw e (added-IsSound old c a m s))

  pub reversal-IsKept :
      (library : Library) (now : ℕ) (reason : ReversalReason) (old new : AffiliateTables)
      → IsProportional library
      → IsReversal library now reason old new
      → IsKept limit old
      → IsKept limit new
  unfolding changed
  reversal-IsKept library now reason old new fair (same, inl e) (m, s) = (same ∙ m, rw e s)
  reversal-IsKept library now reason old new fair (same, inr (row, refund_base, was, is, is_open))
        (m, s) =
      (
        same ∙ m,
        rw is (
            reversed-IsSound library now reason refund_base row.item row.before row.after fair
              is_open (rw was at s)),
      )

module _ (library : Library) (subscriptions : List BillingSubscription) (limit : ℕ) where
  serve-IsKept :
      (request : Request) (tables : AffiliateTables)
      → IsProportional library
      → IsKept limit tables
      → IsKept limit (serve library subscriptions request tables)
  unfolding serve get_or_create_settings
  serve-IsKept (invoice_paid now event) tables fair h =
      addition-IsKept limit tables
        (committed tables
          (create_commission_from_paid_invoice library now event subscriptions tables))
        (create_commission-IsAddition library now event tables subscriptions) h
  serve-IsKept (money_back now reason event) tables fair h =
      reversal-IsKept limit library now reason tables
        (committed tables (reverse_commission library now reason event tables)) fair
        (reverse_commission-IsReversal library now reason event tables) h
  serve-IsKept (dashboard_opened now user_id) tables fair h =
      (h.0, released-IsSound user_id now tables.commissions h.1)

  serve_all-IsKept :
      (requests : List Request) (tables : AffiliateTables)
      → IsProportional library
      → IsKept limit tables
      → IsKept limit (serve_all library subscriptions requests tables)
  unfolding serve_all
  serve_all-IsKept [] tables fair h = h
  serve_all-IsKept (request ∷ requests) tables fair h =
      serve_all-IsKept requests (serve library subscriptions request tables) fair
        (serve-IsKept request tables fair h)

-- Over any paid invoices, refunds, disputes and dashboards from tables without a commission: an
-- invoice has at most one commission, a referred user has at most the configured number of
-- commissions that are not reversed, and no commission is reversed beyond its amount, nor short of
-- it where its status is reversed.
pub serve_all-IsSound :
    (library : Library) (subscriptions : List BillingSubscription) (requests : List Request)
    (tables : AffiliateTables)
    → IsProportional library
    → tables.commissions ≡ []
    → IsSound (months tables) (serve_all library subscriptions requests tables).commissions
unfolding count_qualifying_commissions
serve_all-IsSound library subscriptions requests tables fair empty =
    (serve_all-IsKept library subscriptions (months tables) requests tables fair (refl, start)).1
  where
    start : IsSound (months tables) tables.commissions
    start =
        rw empty
          (record { once = λ invoice. omega arith; capped = λ user_id. omega arith; within = tt })
