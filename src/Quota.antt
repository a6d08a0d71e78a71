-- ===== src/Quota.antt =====
-- The monthly quota of AI credits (src/app/domains/ai/quota.py, and its queries of repository.py).
-- A debit is two events, the transaction and the refresh of the copy of the total in Redis, since
-- other debits may run between them. A session that is closed without a commit keeps no row. A read
-- of the database answers; a debit's transaction may fail.
pub mod Spent
mod Examples
use signalsync_be.Base.{
  ℕ, zero, suc, ◌+◌, ◌-◌, max, Bool, true, false, ◌&&◌, Option, none, some, List, [], ◌∷◌, ◌++◌,
  if◌then◌else◌, leb, ◌==◌,
}
use signalsync_be.Base.Python.{Outcome, returned, raised}
use signalsync_be.Billing.{SubscriptionResponse}

pub record AiUsage : Type 0 where
  pub user_id : ℕ
  pub period_month : ℕ
  pub credits_used : ℕ
  pub message_count : ℕ
  pub input_tokens : ℕ
  pub output_tokens : ℕ
  pub cost_cents : ℕ

abbrev pub same_key : ℕ → ℕ → ℕ → ℕ → Bool
same_key user_id month user_id' month' = (user_id == user_id') && (month == month')

pub get_or_create_usage : List AiUsage → ℕ → ℕ → AiUsage
get_or_create_usage [] user_id period_month = record {
  user_id = user_id;
  period_month = period_month;
  credits_used = 0;
  message_count = 0;
  input_tokens = 0;
  output_tokens = 0;
  cost_cents = 0;
}
get_or_create_usage (row ∷ rows) user_id period_month =
    let found = get_or_create_usage rows user_id period_month in
    if same_key row.user_id row.period_month user_id period_month then row else found

-- The amounts that a call adds to the row of its user and month.
pub record Charge : Type 0 where
  pub user_id : ℕ
  pub period_month : ℕ
  pub credits : ℕ
  pub input_tokens : ℕ
  pub output_tokens : ℕ
  pub cost_cents : ℕ

pub new_row : Charge → AiUsage
new_row charge = record {
  user_id = charge.user_id;
  period_month = charge.period_month;
  credits_used = charge.credits;
  message_count = 1;
  input_tokens = charge.input_tokens;
  output_tokens = charge.output_tokens;
  cost_cents = charge.cost_cents;
}

pub add_to_row : Charge → AiUsage → AiUsage
add_to_row charge row = record row {
  credits_used = row.credits_used + charge.credits;
  message_count = suc row.message_count;
  input_tokens = row.input_tokens + charge.input_tokens;
  output_tokens = row.output_tokens + charge.output_tokens;
  cost_cents = row.cost_cents + charge.cost_cents;
}

pub increment_usage : Charge → List AiUsage → List AiUsage
unfolding new_row add_to_row
increment_usage charge [] = new_row charge ∷ []
increment_usage charge (row ∷ rows) =
    let rest = increment_usage charge rows in
    if same_key row.user_id row.period_month charge.user_id charge.period_month
    then add_to_row charge row ∷ rows
    else row ∷ rest

-- A total that a debit has read and not yet written to Redis.
pub record Refresh : Type 0 where
  pub user_id : ℕ
  pub period_month : ℕ
  pub total : ℕ

pub record QuotaState : Type 0 where
  pub usage : List AiUsage
  pub cached : ℕ → ℕ → Option ℕ
  pub in_flight : List Refresh

abbrev pub no_usage : QuotaState
no_usage = record { usage = []; cached = λ user_id month. none; in_flight = [] }

pub store : ℕ → ℕ → Option ℕ → (ℕ → ℕ → Option ℕ) → ℕ → ℕ → Option ℕ
store user_id month value cached user_id' month' =
    if same_key user_id month user_id' month' then value else cached user_id' month'

abbrev pub or_zero : Option ℕ → ℕ
or_zero none = 0
or_zero (some used) = used

-- The credits used and the messages, when Redis answers and when it does not.
pub authoritative_usage : QuotaState → ℕ → ℕ → Bool → ℕ × ℕ
unfolding get_or_create_usage
authoritative_usage s user_id month reachable =
    let usage = get_or_create_usage s.usage user_id month in
    let redis_used = if reachable then or_zero (s.cached user_id month) else 0 in
    (max usage.credits_used redis_used, usage.message_count)

pub data AiPlan : Type 0 where
  free journal copy : AiPlan

pub plan_for_user : SubscriptionResponse → AiPlan
plan_for_user access =
    if access.copy_access then copy else if access.journal_access then journal else free

-- The settings, `PLAN_CREDITS` among them.
pub record AiSettings : Type 0 where
  pub enabled : Bool
  pub credits_free : ℕ
  pub credits_essential : ℕ
  pub credits_pro : ℕ

abbrev pub plan_credits : AiSettings → AiPlan → ℕ
plan_credits settings free = settings.credits_free
plan_credits settings journal = settings.credits_essential
plan_credits settings copy = settings.credits_pro

pub data QuotaError : Type 0 where
  disabled exhausted accounting_unavailable : QuotaError

pub check :
    AiSettings → SubscriptionResponse → QuotaState → ℕ → ℕ → Bool → Outcome QuotaError (Unit {0})
unfolding plan_for_user authoritative_usage
check settings access s user_id month reachable =
    let used = (authoritative_usage s user_id month reachable).0 in
    let limit = plan_credits settings (plan_for_user access) in
    if settings.enabled
    then if leb limit used then raised exhausted else returned tt
    else raised disabled

pub record UsageResponse : Type 0 where
  pub credits_used : ℕ
  pub credits_limit : ℕ
  pub credits_remaining : ℕ
  pub period_month : ℕ
  pub message_count : ℕ

pub get_usage_response :
    AiSettings → SubscriptionResponse → QuotaState → ℕ → ℕ → Bool → UsageResponse
unfolding plan_for_user authoritative_usage
get_usage_response settings access s user_id month reachable =
    let usage = authoritative_usage s user_id month reachable in
    let limit = plan_credits settings (plan_for_user access) in
    record {
      credits_used = usage.0;
      credits_limit = limit;
      credits_remaining = limit - usage.0;
      period_month = month;
      message_count = usage.1;
    }

abbrev pub refresh_of : Charge → List AiUsage → Refresh
unfolding get_or_create_usage
refresh_of charge usage = record {
  user_id = charge.user_id;
  period_month = charge.period_month;
  total = (get_or_create_usage usage charge.user_id charge.period_month).credits_used;
}

-- The transaction of a debit, and the total it reads after the commit.
pub debit : Charge → Bool → QuotaState → Outcome QuotaError (Unit {0}) × QuotaState
unfolding increment_usage
debit charge persists s =
    let usage = increment_usage charge s.usage in
    if persists
    then (
      returned tt,
      record s { usage = usage; in_flight = refresh_of charge usage ∷ s.in_flight },
    )
    else (raised accounting_unavailable, s)

-- The end of a debit, which keeps the cached total when Redis does not answer.
pub refresh_cache : Refresh → Bool → QuotaState → QuotaState
unfolding store
refresh_cache refresh reachable s =
    if reachable
    then record s {
      cached = store refresh.user_id refresh.period_month (some refresh.total) s.cached;
    }
    else s

abbrev pub take_nth : ℕ → List Refresh → Option (Refresh × List Refresh)
take_nth n [] = none
take_nth zero (refresh ∷ rest) = some (refresh, rest)
take_nth (suc n) (refresh ∷ rest) = elim (take_nth n rest) [
  | none ↦ none
  | some (taken, others) ↦ some (taken, refresh ∷ others)
]

-- A debit whose transaction persists or not, the refresh of one that is in flight, and the expiry
-- of a key.
pub data QuotaEvent : Type 0 where
  charged : Charge → Bool → QuotaEvent
  refreshed : ℕ → Bool → QuotaEvent
  expired : ℕ → ℕ → QuotaEvent

pub finish : Option (Refresh × List Refresh) → Bool → QuotaState → QuotaState
unfolding refresh_cache
finish none reachable s = s
finish (some (taken, others)) reachable s =
    refresh_cache taken reachable (record s { in_flight = others })

pub run : QuotaEvent → QuotaState → QuotaState
unfolding debit finish store
run (charged charge persists) s = (debit charge persists s).1
run (refreshed n reachable) s = finish (take_nth n s.in_flight) reachable s
run (expired user_id month) s = record s { cached = store user_id month none s.cached }

pub run_all : List QuotaEvent → QuotaState → QuotaState
unfolding run
run_all [] s = s
run_all (event ∷ events) s = run_all events (run event s)
