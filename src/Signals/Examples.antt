-- ===== src/Signals/Examples.antt =====
-- Examples for the signal workers (src/app/domains/copy_trading/workers.py).
use signalsync_be.Base.{ℕ, ◌≡◌, ◌↔◌, refl, none, some, List, [], ◌∷◌, map, IsIn}
use signalsync_be.Base.Text.{codes}
use signalsync_be.Engine.{full_close}
use signalsync_be.Signals.{CopiedTrade, management_intent_targets}
use signalsync_be.Signals.Chosen.{IsByAge, management_intent_targets-exact}
use signalsync_be.Signals.Meant.{IsTarget}
use signalsync_be.Signals.Lifecycle.{
  RouteAssemblyState, assembling, executing, RouteSignalAssembly, in_progress, SignalTables,
  expire_signal_threads,
}
use signalsync_be.Signals.Expired.{expire_signal_threads-settled}
use signalsync_be.Signals.Overdue.{IsExpired, IsEnded}

abbrev trade : ℕ → ℕ → ℕ → CopiedTrade
trade id route_id created_at = record {
  id = id;
  route_id = route_id;
  thread_id = id;
  signal_symbol = codes "XAUUSD.m";
  created_at = created_at;
}

abbrev trades : List CopiedTrade
trades = trade 1 5 30 ∷ trade 2 6 10 ∷ trade 3 5 20 ∷ []

management_intent_targets-exact_example :
    (targets : List CopiedTrade) × (management_intent_targets full_close trades 5 1
        (some (codes "gold"))
      ≡ map (λ t. some t) targets)
    × IsByAge targets
    × ((t : CopiedTrade)
        → IsIn t targets ↔ (IsIn t trades × IsTarget full_close 5 1 (some (codes "gold")) t))
management_intent_targets-exact_example =
    management_intent_targets-exact full_close trades 5 1 (some (codes "gold")) refl

abbrev assembly : RouteAssemblyState → ℕ → RouteSignalAssembly
assembly state conversation_id = record {
  conversation_id = conversation_id;
  route_id = 5;
  state = state;
  message_references = 70 ∷ [];
  opening_intent_id = none;
  terminal_reason = none;
  assembly_deadline = 100;
  accepted_at = none;
  completed_at = none;
}

-- Conversation 2 goes on, since one of its assemblies is executing.
abbrev tables : SignalTables
tables = record {
  assemblies = assembly assembling 1 ∷ assembly assembling 2 ∷ assembly executing 2 ∷ [];
  conversations =
      record { id = 1; source_id = 9; state = in_progress; legacy_state = none }
      ∷ record { id = 2; source_id = 9; state = in_progress; legacy_state = some in_progress }
      ∷ [];
}

expire_signal_threads-settled_example :
    let after = (expire_signal_threads 150 tables).1 in
    IsExpired 150 tables.assemblies after.assemblies
    × IsEnded 150 tables.assemblies after.assemblies tables.conversations after.conversations
    × (expire_signal_threads 150 after ≡ (0, after))
expire_signal_threads-settled_example = expire_signal_threads-settled 150 tables
