-- ===== src/Health/Examples.antt =====
-- Examples for the health of the workers (src/app/domains/copy_trading/health.py).
use signalsync_be.Base.{◌≡◌, true, false, [], ◌∷◌, List, All, IsIn}
use signalsync_be.Base.Int.{pos}
use signalsync_be.Health.{
  WorkerRole, Heartbeat, HealthSummary, LaunchFacts, healthy, degraded, is_ready, copy_signal,
  copy_execution, telegram_session, aggregate_health, required_worker_roles,
}
use signalsync_be.Health.Workers.{IsUp, IsDown, aggregate_health-ready}

abbrev signal_beat : Heartbeat
signal_beat = record {
  worker_role = copy_signal;
  heartbeat_at = pos 100;
  state = healthy;
  stream_lag = 0;
  pending_count = 2;
}

abbrev heartbeats : List Heartbeat
heartbeats =
    signal_beat
    ∷ record signal_beat { worker_role = copy_execution; state = degraded }
    ∷ record signal_beat { worker_role = telegram_session; heartbeat_at = pos 20 }
    ∷ []

abbrev summary : HealthSummary
summary = record { status = is_ready; ready = true; components = []; issues = [] }

abbrev facts : LaunchFacts
facts = record {
  dead_letter_count = 3;
  uncertain_intent_ages = 10 ∷ 40 ∷ [];
  active_intent_ages = [];
  active_intent_max_age = 60;
  uncertain_max_age = 30;
  global_paused = false;
}

aggregate_health-ready_example :
    ((aggregate_health (pos 130) 60 heartbeats).ready ≡ true
      → All (IsUp (pos 130) 60 heartbeats) required_worker_roles)
    × ((aggregate_health (pos 130) 60 heartbeats).ready ≡ false
        → (role : WorkerRole) × IsIn role required_worker_roles
          × IsDown (pos 130) 60 heartbeats role)
aggregate_health-ready_example = aggregate_health-ready (pos 130) 60 heartbeats
