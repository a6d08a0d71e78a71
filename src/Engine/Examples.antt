-- ===== src/Engine/Examples.antt =====
-- Examples for the signal engine (src/app/domains/copy_trading/engine.py).
use signalsync_be.Base.{◌≡◌, ◌↔◌, refl, true, false, none, some, [], ◌∷◌}
use signalsync_be.Base.Int.{pos}
use signalsync_be.Base.Python.{returned, finite}
use signalsync_be.Base.Text.{codes}
use signalsync_be.Engine.{
  ParsedSignal, RouteExecutionPolicy, ValidationResult, Reason, Direction, open_market,
  direction_symbol_sl, low_confidence, validate_signal, prices, prices_conflict, conflict_of,
  entry_range_bad, permission, missing_required, advise,
}
use signalsync_be.Engine.Contract.{IsAccepted, IsExecutable}
use signalsync_be.Engine.Acceptance.{validate_signal-accepts_iff}

abbrev gold_buy : ParsedSignal
gold_buy = record {
  action = open_market;
  symbol = some (codes "XAUUSD");
  direction = some Direction.buy;
  entry = none;
  entry_high = none;
  stop_loss = some (finite (pos 2300));
  take_profits = finite (pos 2350) ∷ finite (pos 2400) ∷ [];
  close_fraction = none;
  age_seconds = pos 4;
  confidence = 60;
}

abbrev route_policy : RouteExecutionPolicy
route_policy = record {
  minimum_fields = direction_symbol_sl;
  confidence_threshold = 80;
  market_freshness_seconds = pos 30;
  pending_orders_enabled = true;
  allow_sl_tp_updates = true;
  allow_break_even = true;
  allow_partial_close = false;
  allow_full_close = true;
  allow_pending_cancel = true;
  allow_additional_tp = false;
}

abbrev crossed_buy : ParsedSignal
crossed_buy = record gold_buy { take_profits = finite (pos 2250) ∷ [] }

abbrev crossed_result : ValidationResult
crossed_result = record {
  accepted = false;
  reason = some Reason.stop_and_target_conflict;
  advisory = some low_confidence;
}

validate_signal-accepts_iff_example :
    IsAccepted (validate_signal (pos 100) gold_buy route_policy)
    ↔ IsExecutable (pos 100) gold_buy route_policy
validate_signal-accepts_iff_example = validate_signal-accepts_iff (pos 100) gold_buy route_policy

gold_buy_accepted :
    validate_signal (pos 100) gold_buy route_policy
    ≡ returned (record { accepted = true; reason = none; advisory = some low_confidence })
unfolding validate_signal prices prices_conflict conflict_of entry_range_bad permission
    missing_required advise
gold_buy_accepted = refl

crossed_buy_refused : validate_signal (pos 100) crossed_buy route_policy ≡ returned crossed_result
unfolding validate_signal prices prices_conflict conflict_of entry_range_bad permission
    missing_required advise
crossed_buy_refused = refl
