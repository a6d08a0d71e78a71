-- ===== src/Execution/Handler/Examples.antt =====
-- Examples for the execution of an intent
-- (src/app/domains/copy_trading/metaapi_execution.py).
use signalsync_be.Base.{
  ◌≡◌, ◌≢◌, ◌≤◌, ◌<◌, refl, true, false, none, some, [], ◌∷◌, List, length, arith, suc, ◌/◌,
}
use signalsync_be.Base.Int.{ℤ, pos, negsuc, ◌-ℤ◌, ◌*ℤ◌}
use signalsync_be.Base.Python.{raised, finite}
use signalsync_be.Base.Text.{codes, symbol_chars, is_symbol_char, to_upper, has_content, is_space}
use signalsync_be.Engine.{open_market}
use signalsync_be.Symbols.{
  BrokerSymbol, TradeMode, resolve_symbol, choose, is_tradable, normalize_symbol, canonical,
  normalize_volume,
}
use signalsync_be.Quality.{
  QualityRequest, QuoteValue, at, check_execution_quality, check_prices, quote_decimal, quote_at,
  within_trading_hours,
}
use signalsync_be.Risk.{
  ensure_account_risk_within_limits, check_equity, daily_loss_hit, drawdown_hit,
  matches_symbol_list, matches_candidate,
}
use signalsync_be.Execution.Account.{
  AccountPolicy, ActiveTrade, risk_request, current_exposure, roll_anchors,
}
use signalsync_be.Execution.{created, Payload, CallError, broker_call, select_trade, market_order}
use signalsync_be.Execution.Handler.{
  Answers, World, RouteState, ConnectionState, execution_handler, handle_loaded, enforce_risk,
  quality_details,
}
use signalsync_be.Execution.Handler.Once.{executes, handle_all, handle_all-once}
use signalsync_be.Execution.Handler.Checked.{Cleared, execution_handler-Cleared}
use signalsync_be.Execution.Handler.Race.{handle_loaded-repeats}

abbrev quotient : ℤ → ℤ → ℤ
quotient (pos a) (pos (suc b)) = pos (a / suc b)
quotient (negsuc a) (pos (suc b)) = pos 0 -ℤ pos (suc a / suc b)
quotient a b = pos 0

abbrev gold : BrokerSymbol
gold = record {
  name = codes "XAUUSD";
  trade_mode = TradeMode.number 4;
  min_volume = 10;
  max_volume = 500;
  volume_step = 1;
}

abbrev quality : QualityRequest
quality = record {
  quote = record {
    bid = QuoteValue.number (finite (pos 1000));
    ask = QuoteValue.number (finite (pos 1030));
    time = at (pos 500);
  };
  point = pos 10;
  is_buy = true;
  entry = none;
  max_spread_points = some (pos 5);
  max_slippage_points = none;
  max_quote_age = pos 60;
  waits = false;
  trading_start_hour_utc = none;
  trading_end_hour_utc = none;
  now = pos 510;
  hour = 12;
}

abbrev policy : AccountPolicy
policy = record {
  max_lot_per_trade = 20;
  max_lot = 60;
  max_open_positions = 3;
  daily_equity_anchor_date = some 19;
  daily_equity_anchor = some (pos 11000);
  peak_equity = some (pos 12000);
  daily_loss_limit = some (pos 500);
  max_drawdown_percent = some (pos 50);
  allowed_symbols = codes "XAU" ∷ [];
  blocked_symbols = [];
}

abbrev open_trades : List ActiveTrade
open_trades =
    record { current_volume = some 15; original_volume = some 30 }
    ∷ record { current_volume = none; original_volume = some 25 }
    ∷ []

-- The broker does not answer in time, and the commit afterwards is lost.
abbrev timed_out : CallError
timed_out = record { is_io_error = true; is_value_error = false; name = codes "timeouterror" }

abbrev answers : Answers
answers = record {
  is_visible = true;
  lacks_subscription = false;
  lock_acquired = true;
  route = some RouteState.active;
  connection = some (record { state = ConnectionState.ready; has_account = true });
  is_paused = false;
  broker_acquired = true;
  saved_symbol = some (record { broker_symbol = codes "XAUUSD"; is_current = false });
  symbols = gold ∷ [];
  quote_available = true;
  quality = quality;
  policy = policy;
  account_answers = true;
  equity = some (pos 10000);
  today = 20;
  active_trades = open_trades;
  saves_submission = true;
  broker_answer = raised timed_out;
  saves_result = false;
}

abbrev payload : Payload
payload = record {
  action = open_market;
  symbol = some (codes "GOLD");
  copied_trade_id = none;
  is_buy = true;
  volume = 20;
  entry = none;
  stop_loss = some (pos 900);
  take_profit = some (pos 1200);
  fraction_numerator = 1;
  fraction_denominator = 2;
}

abbrev fresh_intent : World
fresh_intent = record {
  intent = record { state = created; last_error_code = none; attempt_count = 0 };
  trades = [];
  calls = [];
  reconciles = 0;
}

one_call :
    (execution_handler quotient (pos 1) answers payload fresh_intent).1.calls ≡ market_order 20 ∷ []
unfolding execution_handler enforce_risk quality_details broker_call select_trade normalize_volume
    resolve_symbol choose is_tradable normalize_symbol canonical symbol_chars is_symbol_char
    to_upper check_execution_quality check_prices quote_decimal quote_at within_trading_hours
    ensure_account_risk_within_limits check_equity daily_loss_hit drawdown_hit matches_symbol_list
    matches_candidate has_content is_space risk_request current_exposure roll_anchors ◌-ℤ◌ ◌*ℤ◌
one_call = refl

one_call-sent :
    (execution_handler quotient (pos 1) answers payload fresh_intent).1.calls ≢ fresh_intent.calls
one_call-sent e = cc (rw one_call at e)

handle_all-once_example :
    length
      (handle_all quotient
        (pos 1)
        (executes answers payload ∷ executes answers payload ∷ [])
        fresh_intent).calls
    ≤ 1
handle_all-once_example =
    handle_all-once quotient (pos 1) (executes answers payload ∷ executes answers payload ∷ [])
      fresh_intent refl

execution_handler-Cleared_example : Cleared quotient (pos 1) answers payload fresh_intent
execution_handler-Cleared_example =
    execution_handler-Cleared quotient (pos 1) answers payload fresh_intent refl (omega arith)
      one_call-sent

first_sends :
    length fresh_intent.calls
    < length
        (handle_loaded quotient (pos 1) answers payload fresh_intent.intent fresh_intent).1.calls
unfolding handle_loaded enforce_risk quality_details broker_call select_trade normalize_volume
    resolve_symbol choose is_tradable normalize_symbol canonical symbol_chars is_symbol_char
    to_upper check_execution_quality check_prices quote_decimal quote_at within_trading_hours
    ensure_account_risk_within_limits check_equity daily_loss_hit drawdown_hit matches_symbol_list
    matches_candidate has_content is_space risk_request current_exposure roll_anchors ◌-ℤ◌ ◌*ℤ◌
first_sends = omega arith

handle_loaded-repeats_example :
    let first =
      (handle_loaded quotient (pos 1) answers payload fresh_intent.intent fresh_intent).1 in
    let second = (handle_loaded quotient (pos 1) answers payload fresh_intent.intent first).1 in
    length first.calls < length second.calls
handle_loaded-repeats_example =
    handle_loaded-repeats quotient (pos 1) answers payload fresh_intent refl first_sends
