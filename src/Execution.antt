-- ===== src/Execution.antt =====
-- The execution of a trade intent: the data and the steps of `execution_handler` of
-- src/app/domains/copy_trading/metaapi_execution.py before and around the broker call.
-- Lots and prices are whole numbers of a common small unit, small enough that a part of a volume is
-- exact. Activities, notifications, metrics and telemetry are written only, and are left out.
pub mod Account
pub mod Chosen
pub mod Handler
use signalsync_be.Base.{
  ℕ, zero, suc, ◌+◌, ◌-◌, ◌*◌, ◌/◌, Bool, true, false, not, ◌&&◌, ◌||◌, Option, none, some, List,
  [], ◌∷◌, ltb, ◌==◌, if◌then◌else◌, any, find_first, is_none, length, map,
}
use signalsync_be.Base.Int.{ℤ, ltb_ℤ}
use signalsync_be.Base.Python.{Outcome, returned, raised, ◌>>=◌}
use signalsync_be.Base.Text.{Text, codes, starts_with}
use signalsync_be.Engine.{
  SignalAction, open_market, place_pending, modify_sl_tp, break_even, partial_close, full_close,
  cancel_pending, additional_tp, status_only,
}
use signalsync_be.Symbols.{BrokerSymbol, DivisionError, normalize_volume, normalize_symbol}
use signalsync_be.Quality.{Quote, QualityCode}
use signalsync_be.Risk.{RiskRequest, RiskError, ensure_account_risk_within_limits}

pub data TradeIntentState : Type 0 where
  created submitted confirmed uncertain reconciling retryable failed : TradeIntentState

pub data ErrorCode : Type 0 where
  subscription_inactive automation_paused risk_limit_reached confirmation_timeout : ErrorCode
  quality_code : QualityCode → ErrorCode
  broker_error : ErrorCode

pub record TradeIntent : Type 0 where
  pub state : TradeIntentState
  pub last_error_code : Option ErrorCode
  pub attempt_count : ℕ

-- The payload of the intent. The keys that validation has made sure of are present; `volume` is that
-- of the payload or the fixed lot of the route.
pub record Payload : Type 0 where
  pub action : SignalAction
  pub symbol : Option Text
  pub copied_trade_id : Option ℕ
  pub is_buy : Bool
  pub volume : ℕ
  pub entry : Option ℤ
  pub stop_loss : Option ℤ
  pub take_profit : Option ℤ
  pub fraction_numerator : ℕ
  pub fraction_denominator : ℕ

pub data Lifecycle : Type 0 where
  open_trade pending closed cancelled : Lifecycle

pub record CopiedTrade : Type 0 where
  pub id : ℕ
  pub signal_symbol : Text
  pub lifecycle_state : Lifecycle
  pub original_volume : ℕ
  pub current_volume : ℕ
  pub stop_loss : Option ℤ
  pub take_profit : Option ℤ

-- `OPEN_ACTIONS`
abbrev pub opens : SignalAction → Bool
opens open_market = true
opens place_pending = true
opens additional_tp = true
opens _ = false

-- `_select_trade`, on the open and pending trades of the route, the latest first
abbrev only_trade : List CopiedTrade → Option CopiedTrade
only_trade (trade ∷ []) = some trade
only_trade _ = none

abbrev select_by : Option ℕ → Option Text → List CopiedTrade → Option CopiedTrade
select_by (some id) symbol trades = find_first (λ trade. trade.id == id) trades
select_by none none trades = only_trade trades
select_by none (some []) trades = only_trade trades
select_by none (some (c ∷ cs)) trades =
    let target = normalize_symbol (c ∷ cs) in
    find_first (λ trade. starts_with (normalize_symbol trade.signal_symbol) target) trades

pub select_trade : List CopiedTrade → Payload → Option CopiedTrade
select_trade trades payload = select_by payload.copied_trade_id payload.symbol trades

-- An exception, as far as `is_permanent_metaapi_error` asks: whether it is one of `TimeoutError`,
-- `ConnectionError` and `OSError`, whether it is a `ValueError`, and its class in lower case.
pub record CallError : Type 0 where
  pub is_io_error : Bool
  pub is_value_error : Bool
  pub name : Text

-- `word in name`
pub contains : Text → Text → Bool
contains [] word = starts_with [] word
contains (c ∷ name) word = let rest = contains name word in starts_with (c ∷ name) word || rest

abbrev transient_words : List Text
transient_words = codes "timeout" ∷ codes "connection" ∷ codes "socket" ∷ codes "rate" ∷ []

abbrev permanent_words : List Text
permanent_words = codes "validation" ∷ codes "trade" ∷ codes "forbidden" ∷ codes "unauthorized" ∷ []

pub is_permanent_metaapi_error : CallError → Bool
unfolding contains
is_permanent_metaapi_error error =
    if error.is_io_error
    then false
    else if any (contains error.name) transient_words
    then false
    else error.is_value_error || any (contains error.name) permanent_words

abbrev pub value_error : CallError
value_error = record { is_io_error = false; is_value_error = true; name = codes "valueerror" }

abbrev attribute_error : CallError
attribute_error = record {
  is_io_error = false;
  is_value_error = false;
  name = codes "attributeerror";
}

abbrev division_error : CallError
division_error = record {
  is_io_error = false;
  is_value_error = false;
  name = codes "divisionbyzero";
}

-- What is sent to the broker.
pub data BrokerCall : Type 0 where
  market_order pending_order : ℕ → BrokerCall
  modify_position : CopiedTrade → Option ℤ → Option ℤ → BrokerCall
  close_position : CopiedTrade → Option ℕ → BrokerCall
  cancel_order : CopiedTrade → BrokerCall

abbrev order_volume : ℕ → Option BrokerSymbol → Outcome CallError ℕ
order_volume volume none = raised attribute_error
order_volume volume (some symbol) = elim (normalize_volume volume symbol) [
  | returned n ↦ returned n
  | raised e ↦ raised division_error
]

-- `payload.get("stop_loss") or payload.get("entry")`, where a price that is set is not zero
abbrev pub or_entry : Option ℤ → Option ℤ → Option ℤ
or_entry none entry = entry
or_entry (some price) entry = some price

-- `copied.current_volume or copied.original_volume`
abbrev pub volume_of : CopiedTrade → ℕ
volume_of trade = if trade.current_volume == 0 then trade.original_volume else trade.current_volume

abbrev pub partial_volume : Payload → CopiedTrade → ℕ
partial_volume payload trade =
    volume_of trade * payload.fraction_numerator / payload.fraction_denominator

abbrev management_call : SignalAction → Payload → CopiedTrade → Outcome CallError BrokerCall
management_call modify_sl_tp payload trade =
    returned (modify_position trade (or_entry payload.stop_loss payload.entry) payload.take_profit)
management_call break_even payload trade =
    returned (modify_position trade (or_entry payload.stop_loss payload.entry) payload.take_profit)
management_call partial_close payload trade =
    returned (close_position trade (some (partial_volume payload trade)))
management_call full_close payload trade = returned (close_position trade none)
management_call cancel_pending payload trade = returned (cancel_order trade)
management_call _ payload trade = raised value_error

-- The call that `_run_action` makes, or the exception that it raises before it.
pub broker_call :
    SignalAction → Payload → Option CopiedTrade → Option BrokerSymbol → Outcome CallError BrokerCall
broker_call open_market payload copied selected = do
  volume ← order_volume payload.volume selected
  returned (market_order volume)
broker_call additional_tp payload copied selected = do
  volume ← order_volume payload.volume selected
  returned (market_order volume)
broker_call place_pending payload copied selected = do
  volume ← order_volume payload.volume selected
  returned (pending_order volume)
broker_call action payload none selected = raised value_error
broker_call action payload (some trade) selected = management_call action payload trade
