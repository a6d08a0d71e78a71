-- ===== src/Checkout/Scheduled.antt =====
-- A change of plan that waits for the end of the period
-- (src/app/domains/billing/service.py).
use signalsync_be.Base.{
  ℕ, ◌≡◌, refl, true, false, some, ltb, leb, if◌then◌else◌, Bool-cases, inl, inr, arith,
}
use signalsync_be.Base.Int.{ℤ}
use signalsync_be.Base.Text.{Text}
use signalsync_be.Billing.{
  BillingPlan, journal, copy, BillingSubscription, effective_values, same_plan, same_limit,
}
use signalsync_be.Webhooks.{pending_matches, apply_plan}
use signalsync_be.Checkout.{schedule}

same_plan_self : (plan : BillingPlan) → same_plan plan plan ≡ true
same_plan_self journal = refl
same_plan_self copy = refl

same_limit_self : (limit : ℤ) → same_limit limit limit ≡ true
same_limit_self limit = ground arith

-- When the period of a subscription ends at a known time, and whether another change of plan waits
-- already or not, then once a change is scheduled, the plan and the limit of its row are in effect
-- before that time and the new ones from then on; and a payload of the provider that names the new
-- plan, whether it comes before or after, leaves the plan and the limit in effect as they are.
pub schedule-waits :
    (s : BillingSubscription) (product : Text) (plan : BillingPlan) (limit : ℤ) (period_end now : ℕ)
    → s.current_period_end ≡ some period_end
    → let waiting = schedule product plan limit s in
      (effective_values waiting now
        ≡ (if ltb now period_end then (s.plan, s.copy_account_limit) else (plan, limit)))
      × (effective_values (apply_plan waiting plan limit now) now ≡ effective_values waiting now)
unfolding schedule effective_values apply_plan pending_matches
schedule-waits s product plan limit period_end now is_end = elim (Bool-cases (ltb now period_end)) [
  | inl e ↦
      rw (is_end, e, not_leb period_end now e, same_plan_self plan, same_limit_self limit)
        (refl, rw (not_leb period_end now e) refl)
  | inr e ↦
      rw (is_end, e, le_leb period_end now e, same_plan_self plan, same_limit_self limit)
        (refl, refl)
]
  where
    not_leb : (a b : ℕ) → ltb b a ≡ true → leb a b ≡ false
    not_leb a b h = ground arith

    le_leb : (a b : ℕ) → ltb b a ≡ false → leb a b ≡ true
    le_leb a b h = ground arith
