-- ===== src/Quota/Spent.antt =====
-- What the quota counts (src/app/domains/ai/quota.py): the credits of the debits that persisted,
-- whatever Redis does.
use signalsync_be.Base.{
  ℕ, zero, suc, ◌+◌, ◌≤◌, ◌<◌, ◌≡◌, refl, sym, inl, inr, ◌↔◌, Bool, true, false, Option, none, some,
  List, [], ◌∷◌, All, if◌then◌else◌, Bool-cases, arith,
}
use signalsync_be.Base.Python.{returned}
use signalsync_be.Billing.{SubscriptionResponse}
use signalsync_be.Quota.{
  AiUsage, same_key, get_or_create_usage, Charge, new_row, add_to_row, increment_usage, Refresh,
  QuotaState, no_usage, refresh_of, store, or_zero, authoritative_usage, plan_for_user, AiSettings,
  plan_credits, check, debit, refresh_cache, take_nth, QuotaEvent, charged, refreshed, expired,
  finish, run, run_all,
}

used_of : List AiUsage → ℕ → ℕ → ℕ
used_of rows user_id month = (get_or_create_usage rows user_id month).credits_used

abbrev pub added : Charge → ℕ → ℕ → ℕ
added charge user_id month =
    if same_key charge.user_id charge.period_month user_id month then charge.credits else 0

-- The credits of the debits that persisted for a user in a month.
abbrev pub spent_by : ℕ → ℕ → QuotaEvent → ℕ
spent_by user_id month (charged charge true) = added charge user_id month
spent_by user_id month _ = 0

abbrev pub spent : ℕ → ℕ → List QuotaEvent → ℕ
spent user_id month [] = 0
spent user_id month (event ∷ events) = spent_by user_id month event + spent user_id month events

used_of-increment_usage :
    (charge : Charge) (rows : List AiUsage) (user_id month : ℕ)
    → used_of (increment_usage charge rows) user_id month
      ≡ used_of rows user_id month + added charge user_id month
unfolding used_of increment_usage get_or_create_usage new_row add_to_row
used_of-increment_usage charge [] user_id month = ground arith
used_of-increment_usage charge (row ∷ rows) user_id month =
    let rest = used_of-increment_usage charge rows user_id month in ground arith

grows :
    (charge : Charge) (rows : List AiUsage) (user_id month : ℕ)
    → used_of rows user_id month ≤ used_of (increment_usage charge rows) user_id month
grows charge rows user_id month = omega (arith, used_of-increment_usage charge rows user_id month)

-- A total that was read is at most the total of the row.
abbrev IsRead : List AiUsage → Refresh → Type 0
IsRead rows refresh = refresh.total ≤ used_of rows refresh.user_id refresh.period_month

-- No copy of a total is beyond the total of the database.
record IsCached (s : QuotaState) : Type 0 where
  pub cached_le :
      (user_id month : ℕ) → or_zero (s.cached user_id month) ≤ used_of s.usage user_id month
  pub in_flight_le : All (IsRead s.usage) s.in_flight

IsRead-grows :
    (charge : Charge) (rows : List AiUsage) (refreshes : List Refresh)
    → All (IsRead rows) refreshes
    → All (IsRead (increment_usage charge rows)) refreshes
IsRead-grows charge rows [] all = all
IsRead-grows charge rows (r ∷ refreshes) (le, all) = (
  omega (arith, grows charge rows r.user_id r.period_month, le),
  IsRead-grows charge rows refreshes all,
)

-- What is taken and what is left was read as well.
abbrev IsTaken : List AiUsage → Option (Refresh × List Refresh) → Type 0
IsTaken rows none = Unit {0}
IsTaken rows (some (taken, others)) = IsRead rows taken × All (IsRead rows) others

add_other :
    (rows : List AiUsage) (refresh : Refresh) (found : Option (Refresh × List Refresh))
    → IsRead rows refresh
    → IsTaken rows found
    → IsTaken rows
        (elim found [ none ↦ none | some (taken, others) ↦ some (taken, refresh ∷ others) ])
add_other rows refresh none le taken = tt
add_other rows refresh (some (t, others)) le (read, all) = (read, (le, all))

take_nth-IsTaken :
    (rows : List AiUsage) (n : ℕ) (refreshes : List Refresh)
    → All (IsRead rows) refreshes
    → IsTaken rows (take_nth n refreshes)
take_nth-IsTaken rows n [] all = tt
take_nth-IsTaken rows zero (r ∷ refreshes) all = all
take_nth-IsTaken rows (suc n) (r ∷ refreshes) (le, all) =
    add_other rows r (take_nth n refreshes) le (take_nth-IsTaken rows n refreshes all)

same_key-eq : (a b c d : ℕ) → same_key a b c d ≡ true → (a ≡ c) × (b ≡ d)
same_key-eq a b c d h = (ground arith, ground arith)

store-le :
    (rows : List AiUsage) (user month : ℕ) (value : Option ℕ) (cached : ℕ → ℕ → Option ℕ)
    → or_zero value ≤ used_of rows user month
    → ((user_id m : ℕ) → or_zero (cached user_id m) ≤ used_of rows user_id m)
    → (user_id m : ℕ) → or_zero (store user month value cached user_id m) ≤ used_of rows user_id m
unfolding store
store-le rows user month value cached le all user_id m =
    elim (Bool-cases (same_key user month user_id m)) [
      | inl e ↦
          let (same_user, same_month) = same_key-eq user month user_id m e in
          rw (e, sym same_user, sym same_month) le
      | inr e ↦ rw (e) (all user_id m)
    ]

finish-IsCached :
    (found : Option (Refresh × List Refresh)) (reachable : Bool) (s : QuotaState)
    → IsTaken s.usage found
    → IsCached s
    → IsCached (finish found reachable s)
unfolding finish refresh_cache
finish-IsCached none reachable s taken ok = ok
finish-IsCached (some (t, others)) true s (read, all) ok = record {
  cached_le = store-le s.usage t.user_id t.period_month (some t.total) s.cached read ok.cached_le;
  in_flight_le = all;
}
finish-IsCached (some (t, others)) false s (read, all) ok = record {
  cached_le = ok.cached_le;
  in_flight_le = all;
}

run-IsCached : (event : QuotaEvent) (s : QuotaState) → IsCached s → IsCached (run event s)
unfolding run debit used_of refresh_of get_or_create_usage
run-IsCached (charged charge true) s ok = record {
  cached_le = λ user_id month.
      omega (arith, ok.cached_le user_id month, grows charge s.usage user_id month);
  in_flight_le = (omega arith, IsRead-grows charge s.usage s.in_flight ok.in_flight_le);
}
run-IsCached (charged charge false) s ok = ok
run-IsCached (refreshed n reachable) s ok =
    finish-IsCached (take_nth n s.in_flight) reachable s
      (take_nth-IsTaken s.usage n s.in_flight ok.in_flight_le) ok
run-IsCached (expired user_id month) s ok = record {
  cached_le = store-le s.usage user_id month none s.cached (omega arith) ok.cached_le;
  in_flight_le = ok.in_flight_le;
}

finish-usage :
    (found : Option (Refresh × List Refresh)) (reachable : Bool) (s : QuotaState)
    → (finish found reachable s).usage ≡ s.usage
unfolding finish refresh_cache
finish-usage none reachable s = refl
finish-usage (some (t, others)) true s = refl
finish-usage (some (t, others)) false s = refl

run-spent :
    (event : QuotaEvent) (s : QuotaState) (user_id month : ℕ)
    → used_of (run event s).usage user_id month
      ≡ used_of s.usage user_id month + spent_by user_id month event
unfolding run debit
run-spent (charged charge true) s user_id month =
    used_of-increment_usage charge s.usage user_id month
run-spent (charged charge false) s user_id month = omega arith
run-spent (refreshed n reachable) s user_id month =
    rw (finish-usage (take_nth n s.in_flight) reachable s) (omega arith)
run-spent (expired user month') s user_id month = omega arith

run_all-spent :
    (events : List QuotaEvent) (s : QuotaState) (user_id month : ℕ)
    → used_of (run_all events s).usage user_id month
      ≡ used_of s.usage user_id month + spent user_id month events
unfolding run_all
run_all-spent [] s user_id month = omega arith
run_all-spent (event ∷ events) s user_id month =
    omega (arith, run-spent event s user_id month, run_all-spent events (run event s) user_id month)

run_all-IsCached :
    (events : List QuotaEvent) (s : QuotaState) → IsCached s → IsCached (run_all events s)
unfolding run_all
run_all-IsCached [] s ok = ok
run_all-IsCached (event ∷ events) s ok =
    run_all-IsCached events (run event s) (run-IsCached event s ok)

no_usage-IsCached : IsCached no_usage
no_usage-IsCached = record { cached_le = λ user_id month. omega arith; in_flight_le = tt }

used-spent :
    (events : List QuotaEvent) (user_id month : ℕ) (reachable : Bool)
    → (authoritative_usage (run_all events no_usage) user_id month reachable).0
      ≡ spent user_id month events
unfolding authoritative_usage used_of get_or_create_usage
used-spent events user_id month true =
    let cached = (run_all-IsCached events no_usage no_usage-IsCached).cached_le user_id month in
    omega (arith, run_all-spent events no_usage user_id month, cached)
used-spent events user_id month false = omega (arith, run_all-spent events no_usage user_id month)

-- After every interleaving of debits, which persist or not, with their refreshes, in any order,
-- which reach Redis or not, and with expired keys, and whether Redis answers or not, the check lets
-- a user go on in a month exactly when the assistant is on and the credits of the debits that
-- persisted for that user and month are below the limit of the plan.
pub check-spent :
    (events : List QuotaEvent) (settings : AiSettings) (access : SubscriptionResponse)
    (user_id month : ℕ) (reachable : Bool)
    → (check settings access (run_all events no_usage) user_id month reachable ≡ returned tt) ↔ (
        (settings.enabled ≡ true)
        × (spent user_id month events < plan_credits settings (plan_for_user access)))
unfolding check
check-spent events settings access user_id month reachable =
    rw (used-spent events user_id month reachable) (ground arith)
