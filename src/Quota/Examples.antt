-- ===== src/Quota/Examples.antt =====
-- Examples for the quota of AI credits (src/app/domains/ai/quota.py).
use signalsync_be.Base.{ℕ, ◌≡◌, ◌<◌, ◌↔◌, refl, true, false, none, List, [], ◌∷◌}
use signalsync_be.Base.Int.{pos}
use signalsync_be.Base.Python.{returned}
use signalsync_be.Billing.{SubscriptionResponse}
use signalsync_be.Quota.{
  Charge, no_usage, authoritative_usage, AiSettings, plan_credits, plan_for_user, check, QuotaEvent,
  charged, refreshed, expired, run_all,
}
use signalsync_be.Quota.Spent.{spent, check-spent}

abbrev charge : ℕ → ℕ → Charge
charge user_id credits = record {
  user_id = user_id;
  period_month = 11;
  credits = credits;
  input_tokens = 900;
  output_tokens = 70;
  cost_cents = 0;
}

-- The second debit is refreshed before the first, whose old total then stands in Redis.
abbrev events : List QuotaEvent
events =
    charged (charge 1 300) true
    ∷ charged (charge 1 250) true
    ∷ charged (charge 2 40) true
    ∷ charged (charge 1 90) false
    ∷ refreshed 1 true
    ∷ refreshed 1 true
    ∷ refreshed 0 false
    ∷ expired 2 11
    ∷ []

abbrev settings : AiSettings
settings = record {
  enabled = true;
  credits_free = 500;
  credits_essential = 500;
  credits_pro = 1000;
}

abbrev no_plan : SubscriptionResponse
no_plan = record {
  plan = none;
  status = none;
  journal_access = false;
  copy_access = false;
  copy_account_limit = pos 0;
}

all_counted : authoritative_usage (run_all events no_usage) 1 11 true ≡ (550, 2)
unfolding authoritative_usage run_all
all_counted = refl

check-spent_example :
    (check settings no_plan (run_all events no_usage) 1 11 true ≡ returned tt)
    ↔ ((true ≡ true) × (spent 1 11 events < plan_credits settings (plan_for_user no_plan)))
check-spent_example = check-spent events settings no_plan 1 11 true
