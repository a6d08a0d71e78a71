-- ===== src/Billing/Access.antt =====
-- Who has access, and that the response reports what is enforced
-- (src/app/domains/billing/entitlements.py and service.py).
use signalsync_be.Base.{
  ℕ, ◌≡◌, refl, ◌↔◌, inl, inr, Bool, true, false, some, Bool-cases, if◌then◌else◌, arith,
}
use signalsync_be.Base.Int.{ℤ, pos, leb_ℤ, ◌<ℤ◌}
use signalsync_be.Base.Python.{returned, raised, raise_if}
use signalsync_be.Billing.{
  BillingSubscription, http_exception, has_paid_access, has_copy_access,
  require_copy_account_capacity, effective_subscription, subscription_response,
}

gate :
    (allowed : Bool) (limit : ℤ) (count : ℕ)
    → ((allowed ≡ true) × (pos count <ℤ limit)) ↔ (
        (if allowed
          then raise_if (leb_ℤ limit (pos count)) (http_exception 403)
          else raised (http_exception 402))
        ≡ returned tt)
gate false limit count = ((λ h. absurd (cc (h.0))), (λ h. absurd (cc h)))
gate true limit count = elim (Bool-cases (leb_ℤ limit (pos count))) [
  | inl e ↦ ((λ h. absurd (ground (arith, e, h.1))), (λ h. absurd (cc (rw e at h))))
  | inr e ↦ ((λ h. rw e refl), (λ h. (refl, ground (arith, e))))
]

-- At a time, whatever the clock said when the response was made: the response reports access to copy
-- trading, with a limit above the number of accounts, just where another account may be added.
pub subscription_response-enforced :
    (s : BillingSubscription) (clock now count : ℕ)
    → let response = subscription_response (some s) clock now in
      ((response.copy_access ≡ true) × (pos count <ℤ response.copy_account_limit)) ↔ (
        require_copy_account_capacity (some (effective_subscription s now)) count now ≡ returned tt)
unfolding subscription_response require_copy_account_capacity has_copy_access has_paid_access
    effective_subscription
subscription_response-enforced s clock now count =
    gate (has_copy_access (some (effective_subscription s now)) now)
      (effective_subscription s now).copy_account_limit count
