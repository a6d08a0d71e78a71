-- ===== src/Execution/Handler.antt =====
-- `execution_handler` and `reconcile_intent` of src/app/domains/copy_trading/metaapi_execution.py.
-- What the database, Redis and the broker answer during one delivery is a record of answers. The
-- handler reads the intent before it takes the lock of the connection, so the intent it goes on with
-- is an argument. The world is what the database has committed and what the broker was sent; an
-- exception that escapes rolls back what is not committed.
pub mod Once
pub mod Checked
pub mod Race
mod Examples
use signalsync_be.Base.{
  ℕ, suc, ◌+◌, ◌-◌, Bool, true, false, not, ◌&&◌, ◌||◌, Option, none, some, List, [], ◌∷◌, ltb, leb,
  ◌==◌, if◌then◌else◌, map, length, select,
}
use signalsync_be.Base.Int.{ℤ, ltb_ℤ}
use signalsync_be.Base.Python.{Outcome, returned, raised}
use signalsync_be.Base.Text.{Text, text_eq}
use signalsync_be.Engine.{
  SignalAction, open_market, place_pending, modify_sl_tp, break_even, partial_close, full_close,
  cancel_pending, additional_tp, status_only,
}
use signalsync_be.Symbols.{BrokerSymbol, SymbolError, resolve_symbol}
use signalsync_be.Quality.{
  Quote, QualityRequest, QualityError, ExecutionQuality, check_execution_quality, passing_error,
  quote_unavailable,
}
use signalsync_be.Risk.{RiskRequest, RiskError, ensure_account_risk_within_limits}
use signalsync_be.Execution.Chosen.{SymbolMapping, selected_symbol, live_trades}
use signalsync_be.Execution.Account.{AccountPolicy, ActiveTrade, risk_request}
use signalsync_be.Execution.{
  TradeIntentState, created, submitted, confirmed, uncertain, reconciling, retryable, failed,
  ErrorCode, subscription_inactive, automation_paused, risk_limit_reached, confirmation_timeout,
  quality_code, broker_error, TradeIntent, Payload, Lifecycle, open_trade, pending, closed,
  cancelled, CopiedTrade, opens, select_trade, CallError, is_permanent_metaapi_error, BrokerCall,
  market_order, pending_order, modify_position, close_position, cancel_order, broker_call, or_entry,
}

pub data DeliveryAnswer : Type 0 where
  success retry escapes : DeliveryAnswer

-- The states that the handler tells apart.
pub data RouteState : Type 0 where
  active target_unavailable other_state : RouteState

pub data ConnectionState : Type 0 where
  ready broker_disconnected other_state : ConnectionState

pub record Connection : Type 0 where
  pub state : ConnectionState
  pub has_account : Bool

-- What is read during one delivery. `is_paused` is set where the platform, the user or the account is
-- paused or MetaApi is disabled, and `lacks_subscription` where billing is enforced and gives no
-- access to copying. An account has a policy; what the risk check changes in it is not kept.
-- `saved_symbol` is the saved mapping of the symbol, and `account_answers` is false where reading the
-- account raises.
-- `quality` holds the quote, the point of the symbol and the limits of the policy for the quality
-- check; `quote_available` is false where fetching the price raises. `saves_submission` and
-- `saves_result` are false where the commit before, or after, the broker call raises.
pub record Answers : Type 0 where
  pub is_visible : Bool
  pub lacks_subscription : Bool
  pub lock_acquired : Bool
  pub route : Option RouteState
  pub connection : Option Connection
  pub is_paused : Bool
  pub broker_acquired : Bool
  pub saved_symbol : Option SymbolMapping
  pub symbols : List BrokerSymbol
  pub quote_available : Bool
  pub quality : QualityRequest
  pub policy : AccountPolicy
  pub account_answers : Bool
  pub equity : Option ℤ
  pub today : ℕ
  pub active_trades : List ActiveTrade
  pub saves_submission : Bool
  pub broker_answer : Outcome CallError (Unit {0})
  pub saves_result : Bool

pub record World : Type 0 where
  pub intent : TradeIntent
  pub trades : List CopiedTrade
  pub calls : List BrokerCall
  pub reconciles : ℕ

abbrev pub Handled : Type 0
Handled = DeliveryAnswer × World

abbrev with_intent : TradeIntentState → ErrorCode → TradeIntent → World → World
with_intent state code intent w = record w {
  intent = record intent { state = state; last_error_code = some code };
}

-- `intent.state in {created, retryable}`
abbrev pub may_execute : TradeIntentState → Bool
may_execute created = true
may_execute retryable = true
may_execute _ = false

abbrev pub is_down : Option RouteState → Bool
is_down (some target_unavailable) = true
is_down _ = false

abbrev pub is_active : Option RouteState → Bool
is_active (some active) = true
is_active _ = false

abbrev pub usable : Option Connection → Bool
usable none = false
usable (some connection) = elim connection.state [
  | ready ↦ connection.has_account
  | broker_disconnected ↦ connection.has_account
  | other_state ↦ false
]

abbrev change_trade :
    (CopiedTrade → CopiedTrade) → CopiedTrade → List CopiedTrade → List CopiedTrade
change_trade change copied trades =
    map (λ trade. if trade.id == copied.id then change trade else trade) trades

abbrev new_trade : Payload → Lifecycle → ℕ → List CopiedTrade → CopiedTrade
new_trade payload lifecycle volume trades = record {
  id = length trades;
  signal_symbol = elim payload.symbol [ none ↦ [] | some s ↦ s ];
  lifecycle_state = lifecycle;
  original_volume = volume;
  current_volume = volume;
  stop_loss = payload.stop_loss;
  take_profit = payload.take_profit;
}

abbrev or_kept : Option ℤ → Option ℤ → Option ℤ
or_kept none kept = kept
or_kept (some price) kept = some price

-- What a confirmed call does to the copied trades.
pub record_call : BrokerCall → Payload → List CopiedTrade → List CopiedTrade
record_call (market_order volume) payload trades =
    new_trade payload open_trade volume trades ∷ trades
record_call (pending_order volume) payload trades = new_trade payload pending volume trades ∷ trades
record_call (modify_position copied stop_loss take_profit) payload trades =
    change_trade
      (λ trade. record trade {
        stop_loss = or_kept stop_loss trade.stop_loss;
        take_profit = or_kept take_profit trade.take_profit;
      })
      copied trades
record_call (close_position copied (some volume)) payload trades =
    change_trade (λ trade. record trade { current_volume = trade.current_volume - volume }) copied
      trades
record_call (close_position copied none) payload trades =
    change_trade (λ trade. record trade { lifecycle_state = closed; current_volume = 0 }) copied
      trades
record_call (cancel_order copied) payload trades =
    change_trade (λ trade. record trade { lifecycle_state = cancelled; current_volume = 0 }) copied
      trades

-- The `except` clause around the broker call.
pub note_failure : CallError → TradeIntent → World → World
note_failure error intent w =
    if is_permanent_metaapi_error error
    then with_intent failed broker_error intent w
    else (let w' = with_intent uncertain broker_error intent w in
        record w' { reconciles = suc w'.reconciles })

-- The world after the call, if the commit succeeds.
pub note_answer : BrokerCall → Outcome CallError (Unit {0}) → Payload → TradeIntent → World → World
unfolding note_failure record_call
note_answer call (returned _) payload intent w = record w {
  intent = record intent { state = confirmed };
  trades = record_call call payload w.trades;
}
note_answer call (raised error) payload intent w = note_failure error intent w

abbrev saved : Bool → World → World → Handled
saved true before after = (success, after)
saved false before after = (escapes, before)

pub call_broker : Answers → Payload → TradeIntent → Outcome CallError BrokerCall → World → Handled
unfolding note_answer
call_broker a payload intent (raised error) w = saved a.saves_result w (note_failure error intent w)
call_broker a payload intent (returned call) w =
    let w' = record w { calls = call ∷ w.calls } in
    saved a.saves_result w' (note_answer call a.broker_answer payload intent w')

-- From the commit of the state `submitted` on.
pub submit_intent : Answers → Payload → Option BrokerSymbol → TradeIntent → World → Handled
unfolding call_broker
submit_intent a payload selected intent w =
    let intent' = record intent { state = submitted; attempt_count = suc intent.attempt_count } in
    let copied = select_trade (live_trades w.trades) payload in
    if a.saves_submission
    then call_broker a payload intent' (broker_call payload.action payload copied selected)
        (record w { intent = intent' })
    else (escapes, w)

-- The arguments of `check_execution_quality`: those that the payload decides are set here.
abbrev pub quality_request : Answers → Payload → QualityRequest
quality_request a payload = record a.quality { is_buy = payload.is_buy; entry = payload.entry }

-- Only an opening with a volume is checked.
abbrev pub is_risk_checked : Payload → Bool
is_risk_checked payload = opens payload.action && ltb 0 payload.volume

module _ (divide : ℤ → ℤ → ℤ) (default_point : ℤ) where
  -- `_enforce_live_account_risk`, once the account has answered.
  pub enforce_risk : Answers → Payload → Outcome RiskError (Unit {0})
  enforce_risk a payload =
      if is_risk_checked payload
      then ensure_account_risk_within_limits divide
          (risk_request a.policy a.equity a.today a.active_trades payload)
      else returned tt

  pub after_quality : Answers → Payload → Option BrokerSymbol → TradeIntent → World → Handled
  unfolding submit_intent
  after_quality a payload selected intent w =
      if is_risk_checked payload && not a.account_answers
      then (escapes, w)
      else elim (enforce_risk a payload) [
        | returned _ ↦ submit_intent a payload selected intent w
        | raised error ↦ (success, with_intent failed risk_limit_reached intent w)
      ]

  -- `_quality_details`
  pub quality_details : Answers → Payload → Outcome QualityError ExecutionQuality
  quality_details a payload =
      if a.quote_available
      then check_execution_quality divide default_point (quality_request a payload)
      else raised (passing_error quote_unavailable)

  -- The `except ExecutionQualityError` clause.
  pub quality_failure : QualityError → TradeIntent → World → Handled
  quality_failure error intent w =
      let intent' = record intent { attempt_count = suc intent.attempt_count } in
      if error.retryable && leb intent'.attempt_count 1
      then (retry, with_intent retryable (quality_code error.code) intent' w)
      else (success, with_intent failed (quality_code error.code) intent' w)

  pub check_opening : Answers → Payload → Option BrokerSymbol → TradeIntent → World → Handled
  unfolding after_quality quality_failure
  check_opening a payload none intent w = after_quality a payload none intent w
  check_opening a payload (some symbol) intent w =
      if opens payload.action
      then elim (quality_details a payload) [
        | returned _ ↦ after_quality a payload (some symbol) intent w
        | raised error ↦ quality_failure error intent w
      ]
      else after_quality a payload (some symbol) intent w

  -- What is done under the lock of the connection.
  pub perform : Answers → Payload → TradeIntent → World → Handled
  unfolding check_opening
  perform a payload intent w =
      if is_down a.route
      then (retry, w)
      else if a.is_paused || (not (is_active a.route) || not (usable a.connection))
      then (success, with_intent failed automation_paused intent w)
      else if not a.broker_acquired
      then (retry, w)
      else elim (selected_symbol a.saved_symbol payload.symbol a.symbols) [
        | returned selected ↦ check_opening a payload selected intent w
        | raised error ↦ (escapes, w)
      ]

  -- The handler from the point where it has read the intent.
  pub handle_loaded : Answers → Payload → TradeIntent → World → Handled
  unfolding perform
  handle_loaded a payload intent w =
      if not (may_execute intent.state)
      then (success, w)
      else if a.lacks_subscription && opens payload.action
      then (success, with_intent failed subscription_inactive intent w)
      else if not a.lock_acquired
      then (retry, w)
      else perform a payload intent w

  pub execution_handler : Answers → Payload → World → Handled
  unfolding handle_loaded
  execution_handler a payload w =
      if a.is_visible then handle_loaded a payload w.intent w else (retry, w)

-- What `reconcile_intent` finds out.
pub record ReconcileAnswers : Type 0 where
  pub has_account : Bool
  pub answers : Bool
  pub is_found : Bool
  pub is_expired : Bool

-- `intent.state not in {uncertain, reconciling}`
abbrev pub may_reconcile : TradeIntentState → Bool
may_reconcile uncertain = true
may_reconcile reconciling = true
may_reconcile _ = false

abbrev set_state : TradeIntentState → World → World
set_state state w = record w { intent = record w.intent { state = state } }

pub reconcile_intent : ReconcileAnswers → World → Handled
reconcile_intent a w =
    if not (may_reconcile w.intent.state)
    then (success, w)
    else if not a.has_account
    then (retry, w)
    else if not a.answers
    then (escapes, set_state reconciling w)
    else if a.is_found
    then (success, set_state confirmed w)
    else if a.is_expired
    then (success, with_intent failed confirmation_timeout w.intent w)
    else (success, set_state uncertain w)
