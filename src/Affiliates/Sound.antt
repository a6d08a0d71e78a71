-- ===== src/Affiliates/Sound.antt =====
-- What makes the commissions of an affiliate sound, and that an addition and a reversal keep it
-- (src/app/domains/affiliates/service.py).
use signalsync_be.Base.{
  ℕ, ◌+◌, ◌≤◌, ◌≡◌, refl, ◌⊎◌, inl, inr, Bool, true, false, ◌||◌, none, List, [], ◌∷◌, ◌++◌, leb,
  ◌==◌, All, All-split, All-join, max, find_first, Bool-cases, arith,
}
use signalsync_be.Base.Int.{ℤ, pos, pos_part, leb_ℤ}
use signalsync_be.Base.Text.{Text, text_eq, text_eq_iff}
use signalsync_be.Billing.Payload.{Library}
use signalsync_be.Affiliates.{
  AffiliateCommission, AffiliateTables, CommissionStatus, pending, available, paid, reversed,
  ReversalReason, is_reversed, is_closed, count, qualifies, count_qualifying_commissions,
}
use signalsync_be.Affiliates.Reversals.{reversed_share, reverse_item}
use signalsync_be.Affiliates.Effects.{months, IsAdded}

-- `proportion` is at most the amount for a refund below the base, as a product with a quotient below
-- one, rounded.
abbrev pub IsProportional : Library → Type 0
IsProportional library =
    (amount base : ℕ) (refund_base : ℤ)
    → leb_ℤ (pos base) refund_base ≡ false
    → pos_part (library.proportion amount refund_base base) ≤ amount

abbrev pub on_invoice : Text → AffiliateCommission → Bool
on_invoice invoice c = text_eq c.provider_invoice_id invoice

-- No more is reversed than there is, and all of it where the status says so.
abbrev pub IsWithin : AffiliateCommission → Type 0
IsWithin c =
    (c.reversed_amount ≤ c.commission_amount)
    × ((is_reversed c.status ≡ false) ⊎ (c.reversed_amount ≡ c.commission_amount))

pub record IsSound (limit : ℕ) (commissions : List AffiliateCommission) : Type 0 where
  pub once : (invoice : Text) → count (on_invoice invoice) commissions ≤ 1
  pub capped : (user_id : ℕ) → count_qualifying_commissions user_id commissions ≤ limit
  pub within : All IsWithin commissions

pub find_first-none {ℓ} :
    {A : Type ℓ} (test : A → Bool) (rows : List A)
    → find_first test rows ≡ none
    → count test rows ≡ 0
find_first-none test [] h = refl
find_first-none test (a ∷ rows) h = elim (Bool-cases (test a)) [
  | inl e ↦ absurd (cc (rw e at h))
  | inr e ↦ rw e (find_first-none test rows (rw e at h))
]

count-append {ℓ} :
    {A : Type ℓ} (test : A → Bool) (xs ys : List A)
    → count test (xs ++ ys) ≡ count test xs + count test ys
count-append test [] ys = omega arith
count-append test (a ∷ xs) ys = elim (Bool-cases (test a)) [
  | inl e ↦ rw e (omega (arith, count-append test xs ys))
  | inr e ↦ rw e (omega (arith, count-append test xs ys))
]

module _ {limit : ℕ} (tables : AffiliateTables) (c : AffiliateCommission) where
  pub added-IsSound :
      IsAdded tables c
      → months tables ≡ limit
      → IsSound limit tables.commissions
      → IsSound limit (c ∷ tables.commissions)
  unfolding count_qualifying_commissions
  added-IsSound a same s = record {
    once = λ invoice. elim (Bool-cases (on_invoice invoice c)) [
      | inl e ↦
          let i = (text_eq_iff c.provider_invoice_id invoice).0 e in
          let first = rw i at a.first_on_invoice in
          let zero = find_first-none (on_invoice invoice) tables.commissions first in
          rw e (omega (arith, zero))
      | inr e ↦ rw e (s.once invoice)
    ];
    capped = λ user_id. elim (Bool-cases (qualifies user_id c)) [
      | inl e ↦
          rw e let w = rw (qualifies_user user_id e) at a.within_months in omega (arith, w, same)
      | inr e ↦ rw e (s.capped user_id)
    ];
    within = ((rw a.nothing_reversed (omega arith), inl (rw a.is_pending refl)), s.within);
  }
    where
      qualifies_user : (user_id : ℕ) → qualifies user_id c ≡ true → c.referred_user_id ≡ user_id
      qualifies_user user_id h = ground arith

open_status : (s : CommissionStatus) → is_closed s ≡ false → is_reversed s ≡ false
open_status pending h = refl
open_status available h = refl
open_status paid h = refl
open_status reversed h = h

module _ (library : Library) (now : ℕ) (reason : ReversalReason) (refund_base : ℤ)
    (item : AffiliateCommission) where
  unfoldable pub changed : AffiliateCommission
  changed = reverse_item library now reason refund_base item

  reversed_share-le :
      IsProportional library
      → pos_part (reversed_share library refund_base item) ≤ item.commission_amount
  unfolding reversed_share
  reversed_share-le fair = elim (Bool-cases whole_amount) [
    | inl e ↦ rw e (omega arith)
    | inr e ↦
        rw e (fair item.commission_amount item.commission_base refund_base (ground (arith, e)))
  ]
    where
      whole_amount : Bool
      whole_amount = item.commission_base == 0 || leb_ℤ (pos item.commission_base) refund_base

  changed-IsWithin :
      IsProportional library → is_closed item.status ≡ false → IsWithin item → IsWithin changed
  unfolding changed reverse_item
  changed-IsWithin fair is_open h =
      let share = reversed_share-le fair in
      let not_reversed = open_status item.status is_open in
      elim (Bool-cases (leb item.commission_amount reversed_now)) [
        | inl e ↦ rw e (omega (arith, h.0, share), inr (ground (arith, h.0, share, e)))
        | inr e ↦ rw e (omega (arith, h.0, share), inl not_reversed)
      ]
    where
      reversed_now : ℕ
      reversed_now = max item.reversed_amount (pos_part (reversed_share library refund_base item))

  count-changed :
      (test : AffiliateCommission → Bool) (before after : List AffiliateCommission)
      → (test changed ≡ true → test item ≡ true)
      → count test (before ++ changed ∷ after) ≤ count test (before ++ item ∷ after)
  count-changed test before after h =
      rw (count-append test before (changed ∷ after), count-append test before (item ∷ after))
        (ground (arith, h))

  qualifies-changed :
      (user_id : ℕ) → qualifies user_id changed ≡ true → qualifies user_id item ≡ true
  unfolding changed reverse_item
  qualifies-changed user_id h = ground arith

  pub reversed-IsSound :
      {limit : ℕ} (before after : List AffiliateCommission)
      → IsProportional library
      → is_closed item.status ≡ false
      → IsSound limit (before ++ item ∷ after)
      → IsSound limit (before ++ changed ∷ after)
  unfolding changed reverse_item count_qualifying_commissions
  reversed-IsSound before after fair is_open s =
      let (front, at_item, back) = All-split IsWithin before after s.within in
      record {
        once = λ invoice.
            omega (arith, count-changed (on_invoice invoice) before after (λ t. t), s.once invoice);
        capped = λ user_id. omega (
          arith,
          count-changed (qualifies user_id) before after (qualifies-changed user_id),
          s.capped user_id,
        );
        within = All-join IsWithin before after front (changed-IsWithin fair is_open at_item) back;
      }
