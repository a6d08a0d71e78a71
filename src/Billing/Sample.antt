-- ===== src/Billing/Sample.antt =====
-- Sample settings, payloads and rows for the examples of the billing and affiliate modules.
use signalsync_be.Base.{ℕ, ◌*◌, ◌/◌, ◌≤◌, ◌≡◌, false, none, some, List, [], ◌∷◌, length, arith}
use native.Mathlib.Nat.{div-le_of_le-mul}
use signalsync_be.Base.Int.{ℤ, pos, pos_part, leb_ℤ}
use signalsync_be.Base.Python.{returned}
use signalsync_be.Base.Text.{Text, codes}
use signalsync_be.Billing.{copy, active, BillingSubscription}
use signalsync_be.Billing.Catalog.{ProductCatalog}
use signalsync_be.Billing.Payload.{null, EventData, Library}

abbrev pub raw_tiers : List (ℤ × Text)
raw_tiers =
    (pos 1, codes "c1")
    ∷ (pos 2, codes "c2")
    ∷ (pos 3, codes " c3")
    ∷ (pos 4, codes "c4")
    ∷ (pos 5, codes "c5")
    ∷ (pos 6, codes "c6")
    ∷ (pos 7, codes "c7 ")
    ∷ (pos 8, codes "c8")
    ∷ (pos 9, codes "c9")
    ∷ (pos 10, codes "c10")
    ∷ []

abbrev pub catalog : ProductCatalog
catalog = record {
  journal_product_id = codes "j";
  copy_product_ids =
      (pos 1, codes "c1")
      ∷ (pos 2, codes "c2")
      ∷ (pos 3, codes "c3")
      ∷ (pos 4, codes "c4")
      ∷ (pos 5, codes "c5")
      ∷ (pos 6, codes "c6")
      ∷ (pos 7, codes "c7")
      ∷ (pos 8, codes "c8")
      ∷ (pos 9, codes "c9")
      ∷ (pos 10, codes "c10")
      ∷ [];
}

-- Times and amounts are as long as their text, in seconds and in dollars.
abbrev pub library : Library
library = record {
  print = λ value. codes "None";
  from_iso = λ t. returned (length t);
  uuid_of = λ t. some (length t);
  to_cents = λ t. returned (pos (100 * length t));
  proportion = λ amount refund base. pos (amount * pos_part refund / base);
}

abbrev pub blank : EventData
blank = record {
  id = null;
  subscription_id = null;
  nested_subscription_id = null;
  nested_subscription_own_id = null;
  product_id = null;
  nested_product_id = null;
  status = null;
  customer_id = null;
  customer_email = null;
  tradepartna_user_id = null;
  currency = null;
  amount = null;
  current_period_start = null;
  current_period_end = null;
  cancel_at_period_end = null;
  canceled_at = null;
  invoice_id = null;
  payment_id = null;
  charge_id = null;
  nested_payment_id = null;
  nested_payment_own_id = null;
  amount_collected = null;
  amount_paid = null;
  total_paid = null;
  refund_amount = null;
}

-- A subscription of user 7 to copy trading with two accounts.
abbrev pub subscription : BillingSubscription
subscription = record {
  user_id = 7;
  provider_customer_id = none;
  provider_subscription_id = codes "s1";
  provider_product_id = codes "c2";
  plan = copy;
  status = active;
  copy_account_limit = pos 2;
  currency = codes "USD";
  amount = codes "20.00";
  current_period_start = some 0;
  current_period_end = some 2000;
  grace_ends_at = none;
  cancel_at_period_end = false;
  canceled_at = none;
  pending_plan = none;
  pending_copy_account_limit = none;
  pending_effective_at = none;
}

pub library-share :
    (amount base : ℕ) (refund_base : ℤ)
    → leb_ℤ (pos base) refund_base ≡ false
    → pos_part (library.proportion amount refund_base base) ≤ amount
library-share amount base refund_base h =
    share amount base (pos_part refund_base) (ground (arith, h))
  where
    share : (a b r : ℕ) → r ≤ b → (a * r) / b ≤ a
    share a b r below = div-le_of_le-mul b (grind arith)
