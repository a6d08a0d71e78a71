-- ===== src/Affiliates/Effects.antt =====
-- What the requests change of the commissions: a paid invoice adds at most one, a refund or dispute
-- changes at most one (src/app/domains/affiliates/service.py).
use signalsync_be.Base.{
  ℕ, ◌<◌, ◌≡◌, refl, ◌⊎◌, inl, inr, Bool, true, false, not, Option, none, some, List, ◌∷◌, ◌++◌,
  leb, is_some, if◌then◌else◌, Bool-cases, not_some, FoundRow, IsRowOf, locate-IsRowOf,
  Option-cases, arith,
}
use signalsync_be.Base.Int.{ℤ, pos, leb_ℤ}
use signalsync_be.Base.Python.{returned, Outcome-cases}
use signalsync_be.Base.Text.{Text}
use signalsync_be.Billing.{BillingSubscription, subscription_by_provider_id}
use signalsync_be.Billing.Payload.{EventData, Library, truthy, str, str_or_none}
use signalsync_be.Affiliates.{
  AffiliateProfile, ReferralAttribution, AffiliateCommission, AffiliateTables, pending,
  ReversalReason, is_active, is_closed, money, get_or_create_settings, profile_of, attribution_of,
  commission_by_invoice, count_qualifying_commissions,
}
use signalsync_be.Affiliates.Commissions.{
  amount_of, invoice_value, subscription_id, payment_id, commission_for, new_commission,
  create_commission_from_paid_invoice, Answer, on_some,
}
use signalsync_be.Affiliates.Reversals.{
  committed, row_by_payment, first_some, get_commission_for_reversal, refund_of, reverse_item,
  reverse_commission,
}

abbrev pub months : AffiliateTables → ℕ
months tables = (get_or_create_settings tables.settings).recurring_months

-- What a paid invoice may add.
pub record IsAdded (tables : AffiliateTables) (c : AffiliateCommission) : Type 0 where
  pub first_on_invoice : commission_by_invoice c.provider_invoice_id tables.commissions ≡ none
  pub within_months :
      count_qualifying_commissions c.referred_user_id tables.commissions < months tables
  pub is_pending : c.status ≡ pending
  pub nothing_reversed : c.reversed_amount ≡ 0

-- The commissions stay, or one is added that may be.
abbrev pub IsAddition : AffiliateTables → AffiliateTables → Type 0
IsAddition old new =
    (months new ≡ months old)
    × ((new.commissions ≡ old.commissions)
        ⊎ ((c : AffiliateCommission) × (new.commissions ≡ c ∷ old.commissions) × IsAdded old c))

-- The same of an answer; a record, so that the answer can be read off it.
record IsFine (tables : AffiliateTables) (answer : Answer) : Type 0 where
  addition : IsAddition tables (committed tables answer)

module _ (library : Library) (now : ℕ) (event : EventData) (tables : AffiliateTables) where
  commission_for-IsAddition :
      (invoice provider_id : Text) (subscription : BillingSubscription)
      (attribution : ReferralAttribution) (profile : AffiliateProfile)
      → commission_by_invoice invoice tables.commissions ≡ none
      → IsAddition tables (
          committed tables (
            commission_for library now event invoice provider_id subscription attribution profile
              tables))
  unfolding commission_for new_commission get_or_create_settings
  commission_for-IsAddition invoice provider_id subscription attribution profile h =
      elim (Bool-cases full) [
        | inl e ↦ rw e (refl, inl refl)
        | inr e ↦ rw e (elim (Outcome-cases (money library (amount_of event))) [
          | inl (base, paid) ↦ rw paid (elim (Bool-cases (leb_ℤ base (pos 0))) [
            | inl low ↦ rw low (refl, inl refl)
            | inr high ↦ rw high (
              refl,
              inr (
                _,
                refl,
                record {
                  first_on_invoice = h;
                  within_months = ground (arith, e);
                  is_pending = refl;
                  nothing_reversed = refl;
                },
              ),
            )
          ])
          | inr (error, bad) ↦ rw bad (refl, inl refl)
        ])
      ]
    where
      full : Bool
      full =
          leb (get_or_create_settings tables.settings).recurring_months
            (count_qualifying_commissions subscription.user_id tables.commissions)

  unchanged : IsFine tables (returned (none, tables))
  unchanged = record { addition = (refl, inl refl) }

  on_some-IsFine {ℓ} :
      {A : Type ℓ} (found : Option A) {next : A → Answer}
      → ((a : A) → IsFine tables (next a))
      → IsFine tables (on_some found tables next)
  on_some-IsFine none h = unchanged
  on_some-IsFine (some a) h = h a

  if-IsFine :
      (test : Bool) {on_true on_false : Answer}
      → (test ≡ true → IsFine tables on_true)
      → (test ≡ false → IsFine tables on_false)
      → IsFine tables (if test then on_true else on_false)
  if-IsFine true h k = h refl
  if-IsFine false h k = k refl

  create_commission-IsFine :
      (subscriptions : List BillingSubscription)
      → IsFine tables (create_commission_from_paid_invoice library now event subscriptions tables)
  unfolding create_commission_from_paid_invoice
  create_commission-IsFine subscriptions =
      if-IsFine (not (truthy (invoice_value event))) (λ e. unchanged)
        λ e. on_some-IsFine (subscription_id library event) λ provider_id.
          if-IsFine (is_some known) (λ e. unchanged)
            λ new.
              on_some-IsFine (subscription_by_provider_id provider_id subscriptions) λ subscription.
                on_some-IsFine (attribution_of subscription.user_id tables.attributions)
                  λ attribution.
                    on_some-IsFine (profile_of attribution.affiliate_user_id tables.profiles)
                      λ profile.
                        if-IsFine (is_active profile.status)
                          (λ e. record {
                            addition =
                                commission_for-IsAddition invoice provider_id subscription
                                  attribution profile (not_some known new);
                          })
                          (λ e. unchanged)
    where
      invoice : Text
      invoice = str library (invoice_value event)

      known : Option AffiliateCommission
      known = commission_by_invoice invoice tables.commissions

  pub create_commission-IsAddition :
      (subscriptions : List BillingSubscription)
      → IsAddition tables (
          committed tables
            (create_commission_from_paid_invoice library now event subscriptions tables))
  create_commission-IsAddition subscriptions = (create_commission-IsFine subscriptions).addition

-- The commissions stay, or one that is open is reversed.
abbrev pub IsReversal : Library → ℕ → ReversalReason → AffiliateTables → AffiliateTables → Type 0
IsReversal library now reason old new =
    (months new ≡ months old)
    × ((new.commissions ≡ old.commissions)
        ⊎ ((row : FoundRow AffiliateCommission) × (refund_base : ℤ) × (old.commissions
              ≡ row.before ++ row.item ∷ row.after)
            × (new.commissions
                ≡ row.before ++ reverse_item library now reason refund_base row.item ∷ row.after)
            × (is_closed row.item.status ≡ false)))

row_by_payment-IsRowOf :
    (payment : Option Text) (commissions : List AffiliateCommission)
    → IsRowOf commissions (row_by_payment payment commissions)
unfolding row_by_payment
row_by_payment-IsRowOf none commissions = tt
row_by_payment-IsRowOf (some payment) commissions = locate-IsRowOf _ commissions

first_some-IsRowOf :
    (commissions : List AffiliateCommission) (a b : Option (FoundRow AffiliateCommission))
    → IsRowOf commissions a
    → IsRowOf commissions b
    → IsRowOf commissions (first_some a b)
first_some-IsRowOf commissions none b h k = k
first_some-IsRowOf commissions (some row) b h k = h

get_commission_for_reversal-IsRowOf :
    (payment invoice : Option Text) (commissions : List AffiliateCommission)
    → IsRowOf commissions (get_commission_for_reversal payment invoice commissions)
unfolding get_commission_for_reversal
get_commission_for_reversal-IsRowOf payment none commissions =
    row_by_payment-IsRowOf payment commissions
get_commission_for_reversal-IsRowOf payment (some invoice) commissions =
    first_some-IsRowOf commissions _ _ (locate-IsRowOf _ commissions)
      (row_by_payment-IsRowOf payment commissions)

pub reverse_commission-IsReversal :
    (library : Library) (now : ℕ) (reason : ReversalReason) (event : EventData)
    (tables : AffiliateTables)
    → IsReversal library now reason tables
        (committed tables (reverse_commission library now reason event tables))
unfolding reverse_commission
reverse_commission-IsReversal library now reason event tables = elim (Option-cases found) [
  | inl e ↦ rw e (refl, inl refl)
  | inr (row, e) ↦ rw e (elim (Bool-cases (is_closed row.item.status)) [
    | inl closed ↦ rw closed (refl, inl refl)
    | inr is_open ↦ rw is_open (elim (Outcome-cases (refund_of library event row.item)) [
      | inl (refund_base, r) ↦ rw r (refl, inr (row, refund_base, rw e at is_row, refl, is_open))
      | inr (error, r) ↦ rw r (refl, inl refl)
    ])
  ])
]
  where
    payment : Option Text
    payment =
        first_some (payment_id library event) (str_or_none library event.nested_payment_own_id)

    invoice : Option Text
    invoice = str_or_none library event.invoice_id

    found : Option (FoundRow AffiliateCommission)
    found = get_commission_for_reversal payment invoice tables.commissions

    is_row : IsRowOf tables.commissions found
    is_row = get_commission_for_reversal-IsRowOf payment invoice tables.commissions
