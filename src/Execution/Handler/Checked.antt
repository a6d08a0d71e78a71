-- ===== src/Execution/Handler/Checked.antt =====
-- What an order has passed before it reaches the broker
-- (src/app/domains/copy_trading/metaapi_execution.py).
use signalsync_be.Base.{
  suc, ◌<◌, ◌≡◌, ◌≢◌, refl, inl, inr, true, false, none, some, Option, arith, Bool-cases, ltb, ◌||◌,
  ◌&&◌, not,
}
use signalsync_be.Base.Int.{ℤ}
use signalsync_be.Base.Python.{returned, raised, Outcome-cases}
use signalsync_be.Symbols.{BrokerSymbol}
use signalsync_be.Quality.{ExecutionQuality, check_execution_quality}
use signalsync_be.Quality.Checked.{Passed, check_execution_quality-Passed}
use signalsync_be.Risk.{ensure_account_risk_within_limits}
use signalsync_be.Risk.Limits.{IsWithinLimits, ensure_account_risk_iff}
use signalsync_be.Engine.{
  SignalAction, open_market, place_pending, modify_sl_tp, break_even, partial_close, full_close,
  cancel_pending, additional_tp, status_only,
}
use signalsync_be.Execution.Account.{risk_request}
use signalsync_be.Execution.{
  TradeIntent, submitted, Payload, CopiedTrade, CallError, broker_call, select_trade, opens,
}
use signalsync_be.Execution.Chosen.{live_trades, selected_symbol}
use signalsync_be.Execution.Handler.{
  is_risk_checked, Answers, World, RouteState, may_execute, usable, call_broker, submit_intent,
  enforce_risk, after_quality, quality_details, quality_request, quality_failure, check_opening,
  perform, handle_loaded, execution_handler, note_failure, is_active, is_down,
}

module _ (divide : ℤ → ℤ → ℤ) (default_point : ℤ) where
  -- What stands behind an order.
  pub record Cleared (a : Answers) (payload : Payload) (w : World) : Type 0 where
    pub fresh : may_execute w.intent.state ≡ true
    pub subscribed : a.lacks_subscription ≡ false
    pub running : a.is_paused ≡ false
    pub route_active : a.route ≡ some RouteState.active
    pub connected : usable a.connection ≡ true
    pub symbol : BrokerSymbol
    pub resolved : selected_symbol a.saved_symbol payload.symbol a.symbols ≡ returned (some symbol)
    pub within_limits :
        IsWithinLimits divide (risk_request a.policy a.equity a.today a.active_trades payload)
    pub quality : ExecutionQuality
    pub passed : Passed divide default_point (quality_request a payload) quality

module _ (payload : Payload) where
  no_symbol_raises :
      (action : SignalAction) (copied : Option CopiedTrade)
      → opens action ≡ true
      → (error : CallError) × (broker_call action payload copied none ≡ raised error)
  unfolding broker_call
  no_symbol_raises open_market copied h = (_, refl)
  no_symbol_raises place_pending copied h = (_, refl)
  no_symbol_raises additional_tp copied h = (_, refl)
  no_symbol_raises modify_sl_tp copied h = cc
  no_symbol_raises break_even copied h = cc
  no_symbol_raises partial_close copied h = cc
  no_symbol_raises full_close copied h = cc
  no_symbol_raises cancel_pending copied h = cc
  no_symbol_raises status_only copied h = cc

module _ (a : Answers) (payload : Payload) where
  raised-sends_nothing :
      (intent : TradeIntent) (error : CallError) (w : World)
      → (call_broker a payload intent (raised error) w).1.calls ≡ w.calls
  unfolding call_broker note_failure
  raised-sends_nothing intent error w = ground arith

  no_symbol-sends_nothing :
      (intent : TradeIntent) (w : World)
      → opens payload.action ≡ true
      → (submit_intent a payload none intent w).1.calls ≡ w.calls
  unfolding submit_intent
  no_symbol-sends_nothing intent w h =
      let (error, e) =
        no_symbol_raises payload payload.action (select_trade (live_trades w.trades) payload) h in
      rw e (elim (Bool-cases a.saves_submission) [
        | inl saves ↦ rw saves (
            raised-sends_nothing
              (record intent { state = submitted; attempt_count = suc intent.attempt_count }) error
              (record w {
                intent = record intent {
                  state = submitted;
                  attempt_count = suc intent.attempt_count;
                };
              }))
        | inr e ↦ rw e refl
      ])

module _ (divide : ℤ → ℤ → ℤ) (default_point : ℤ) (a : Answers) (payload : Payload) where
  after_quality-sends :
      (selected : Option BrokerSymbol) (intent : TradeIntent) (w : World)
      → (after_quality divide default_point a payload selected intent w).1.calls ≢ w.calls
      → (enforce_risk divide default_point a payload ≡ returned tt)
        × ((submit_intent a payload selected intent w).1.calls ≢ w.calls)
  unfolding after_quality
  after_quality-sends selected intent w sent =
      elim (Bool-cases (is_risk_checked payload && not a.account_answers)) [
        | inl silent ↦ elim (sent (rw (silent, after_quality) refl)) [ ]
        | inr answered ↦ elim (Outcome-cases (enforce_risk divide default_point a payload)) [
          | inl (u, e) ↦ (e, λ same. sent (rw (answered, e, after_quality) same))
          | inr (error, e) ↦ elim (sent (rw (answered, e, after_quality) refl)) [ ]
        ]
      ]

  check_opening-sends :
      (selected : Option BrokerSymbol) (intent : TradeIntent) (w : World)
      → opens payload.action ≡ true
      → (check_opening divide default_point a payload selected intent w).1.calls ≢ w.calls
      → (symbol : BrokerSymbol) × (selected ≡ some symbol)
        × ((q : ExecutionQuality) × (quality_details divide default_point a payload ≡ returned q))
        × (enforce_risk divide default_point a payload ≡ returned tt)
  unfolding check_opening quality_failure
  check_opening-sends none intent w h sent =
      elim ((after_quality-sends none intent w sent).1
        (no_symbol-sends_nothing a payload intent w h)) [ ]
  check_opening-sends (some symbol) intent w h sent =
      elim (Outcome-cases (quality_details divide default_point a payload)) [
        | inl (q, e) ↦ (
          symbol,
          refl,
          (q, e),
          (after_quality-sends (some symbol) intent w (λ same. sent (rw (h, e) same))).0,
        )
        | inr (error, e) ↦ elim (sent (rw (h, e) (ground arith))) [ ]
      ]

  is_active-eq :
      (route : Option RouteState) → is_active route ≡ true → route ≡ some RouteState.active
  is_active-eq none h = cc
  is_active-eq (some RouteState.active) h = refl
  is_active-eq (some RouteState.target_unavailable) h = cc
  is_active-eq (some RouteState.other_state) h = cc

  perform-sends :
      (intent : TradeIntent) (w : World)
      → (perform divide default_point a payload intent w).1.calls ≢ w.calls
      → (a.is_paused ≡ false)
        × (is_active a.route ≡ true)
        × (usable a.connection ≡ true)
        × ((selected : Option BrokerSymbol) × (selected_symbol a.saved_symbol payload.symbol
                a.symbols
              ≡ returned selected)
            × ((check_opening divide default_point a payload selected intent w).1.calls ≢ w.calls))
  unfolding perform
  perform-sends intent w sent = elim (Bool-cases (is_down a.route)) [
    | inl e ↦ elim (sent (rw e refl)) [ ]
    | inr down ↦
        elim (Bool-cases (a.is_paused || (not (is_active a.route) || not (usable a.connection)))) [
          | inl e ↦ elim (sent (rw (down, e) refl)) [ ]
          | inr going ↦ elim (Bool-cases (not a.broker_acquired)) [
            | inl e ↦ elim (sent (rw (down, going, e) refl)) [ ]
            | inr acquired ↦
                elim (Outcome-cases (selected_symbol a.saved_symbol payload.symbol a.symbols)) [
                  | inr (error, e) ↦ elim (sent (rw (down, going, acquired, e) refl)) [ ]
                  | inl (selected, e) ↦ (
                    ground arith,
                    ground arith,
                    ground arith,
                    (selected, e, λ same. sent (rw (down, going, acquired, e) same)),
                  )
                ]
          ]
        ]
  ]

  enforced-limits :
      opens payload.action ≡ true
      → 0 < payload.volume
      → enforce_risk divide default_point a payload ≡ returned tt
      → ensure_account_risk_within_limits divide
          (risk_request a.policy a.equity a.today a.active_trades payload)
        ≡ returned tt
  unfolding enforce_risk
  enforced-limits h some_volume e = rw (h, positive) at e
    where
      positive : ltb 0 payload.volume ≡ true
      positive = ground arith

  measured-quality :
      (q : ExecutionQuality)
      → quality_details divide default_point a payload ≡ returned q
      → check_execution_quality divide default_point (quality_request a payload) ≡ returned q
  unfolding quality_details
  measured-quality q e = elim (Bool-cases a.quote_available) [
    | inl available ↦ rw available at e
    | inr missing ↦ cc (rw missing at e)
  ]

  cleared :
      (w : World)
      → opens payload.action ≡ true
      → 0 < payload.volume
      → not (may_execute w.intent.state) ≡ false
      → a.lacks_subscription ≡ false
      → (perform divide default_point a payload w.intent w).1.calls ≢ w.calls
      → Cleared divide default_point a payload w
  cleared w h some_volume fresh subscribed sent =
      let (running, on, connected, (selected, resolved, sent')) = perform-sends w.intent w sent in
      let (symbol, is_symbol, (quality, measured), limits) =
        check_opening-sends selected w.intent w h sent' in
      record {
        fresh = ground arith;
        subscribed = subscribed;
        running = running;
        route_active = is_active-eq a.route on;
        connected = connected;
        symbol = symbol;
        resolved = rw⁻¹ is_symbol resolved;
        within_limits =
            (ensure_account_risk_iff divide
                (risk_request a.policy a.equity a.today a.active_trades payload)).0
              (enforced-limits h some_volume limits);
        quality = quality;
        passed =
            check_execution_quality-Passed divide default_point (quality_request a payload) quality
              (measured-quality quality measured);
      }

  -- An opening order reaches the broker only if the intent was not executed before, the
  -- subscription, the route and the connection allow it and nothing is paused, its symbol was
  -- resolved, the limits of the account hold for the volume that was asked for (which must not be
  -- zero, since a volume of zero is not checked), and the live quote passed the quality check.
  pub execution_handler-Cleared :
      (w : World)
      → opens payload.action ≡ true
      → 0 < payload.volume
      → (execution_handler divide default_point a payload w).1.calls ≢ w.calls
      → Cleared divide default_point a payload w
  unfolding execution_handler handle_loaded
  execution_handler-Cleared w h some_volume sent = elim (Bool-cases a.is_visible) [
    | inr e ↦ elim (sent (rw e refl)) [ ]
    | inl visible ↦ elim (Bool-cases (not (may_execute w.intent.state))) [
      | inl e ↦ elim (sent (rw (visible, e) refl)) [ ]
      | inr fresh ↦ elim (Bool-cases a.lacks_subscription) [
        | inl e ↦ elim (sent (rw (visible, fresh, e, h) refl)) [ ]
        | inr subscribed ↦ elim (Bool-cases (not a.lock_acquired)) [
          | inl e ↦ elim (sent (rw (visible, fresh, subscribed, e) refl)) [ ]
          | inr locked ↦
              cleared w h some_volume fresh subscribed
                (λ same. sent (rw (visible, fresh, subscribed, locked) same))
        ]
      ]
    ]
  ]
