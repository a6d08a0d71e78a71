-- ===== src/Execution/Handler/Race.antt =====
-- What two overlapping deliveries of one intent do: the state that `execution_handler` tests is read
-- before the lock of the connection is taken (src/app/domains/copy_trading/metaapi_execution.py).
use signalsync_be.Base.{
  suc, ◌<◌, ◌≡◌, refl, ap, true, none, some, Option, List, [], ◌∷◌, ◌++◌, length, length-append,
  arith, Bool-cases, inl, inr, not, ◌||◌, ◌&&◌,
}
use signalsync_be.Base.Int.{ℤ}
use signalsync_be.Base.Python.{Outcome, returned, raised, Outcome-cases}
use signalsync_be.Symbols.{BrokerSymbol}
use signalsync_be.Engine.{
  SignalAction, open_market, place_pending, modify_sl_tp, break_even, partial_close, full_close,
  cancel_pending, additional_tp, status_only,
}
use signalsync_be.Execution.{
  TradeIntent, submitted, Payload, CopiedTrade, CallError, BrokerCall, broker_call, select_trade,
  opens,
}
use signalsync_be.Execution.Chosen.{live_trades, selected_symbol}
use signalsync_be.Execution.Handler.{
  is_risk_checked, Answers, World, Handled, call_broker, submit_intent, enforce_risk, after_quality,
  quality_details, quality_failure, check_opening, is_down, is_active, usable, may_execute, perform,
  handle_loaded, note_answer, note_failure,
}

-- A delivery sends the same calls whatever the world is.
abbrev Adds : (World → Handled) → Type 0
Adds run = (calls : List BrokerCall) × ((w : World) → (run w).1.calls ≡ calls ++ w.calls)

sent_by : Outcome CallError BrokerCall → List BrokerCall
sent_by (returned call) = call ∷ []
sent_by (raised _) = []

module _ (a : Answers) (payload : Payload) where
  call_broker-calls :
      (intent : TradeIntent) (result : Outcome CallError BrokerCall) (w : World)
      → (call_broker a payload intent result w).1.calls ≡ sent_by result ++ w.calls
  unfolding call_broker note_answer note_failure sent_by
  call_broker-calls intent (returned call) w = ground arith
  call_broker-calls intent (raised error) w = ground arith

  broker_call-opening :
      (action : SignalAction) (copied : Option CopiedTrade) (selected : Option BrokerSymbol)
      → opens action ≡ true
      → broker_call action payload copied selected ≡ broker_call action payload none selected
  unfolding broker_call
  broker_call-opening open_market copied selected h = refl
  broker_call-opening place_pending copied selected h = refl
  broker_call-opening additional_tp copied selected h = refl
  broker_call-opening modify_sl_tp copied selected h = cc
  broker_call-opening break_even copied selected h = cc
  broker_call-opening partial_close copied selected h = cc
  broker_call-opening full_close copied selected h = cc
  broker_call-opening cancel_pending copied selected h = cc
  broker_call-opening status_only copied selected h = cc

  submit_intent-Adds :
      (selected : Option BrokerSymbol) (intent : TradeIntent)
      → opens payload.action ≡ true
      → Adds (submit_intent a payload selected intent)
  unfolding submit_intent
  submit_intent-Adds selected intent h = elim (Bool-cases a.saves_submission) [
    | inr e ↦ ([], λ w. rw e refl)
    | inl e ↦
        let intent' = record intent {
          state = submitted;
          attempt_count = suc intent.attempt_count;
        } in
        (
          sent_by (broker_call payload.action payload none selected),
          λ w.
              rw
                (
                  e,
                  broker_call-opening payload.action (select_trade (live_trades w.trades) payload)
                      selected h,
                )
                (call_broker-calls intent' (broker_call payload.action payload none selected)
                  (record w { intent = intent' })),
        )
  ]

module _ (divide : ℤ → ℤ → ℤ) (default_point : ℤ) (a : Answers) (payload : Payload) where
  after_quality-Adds :
      (selected : Option BrokerSymbol) (intent : TradeIntent)
      → opens payload.action ≡ true
      → Adds (after_quality divide default_point a payload selected intent)
  unfolding after_quality
  after_quality-Adds selected intent h =
      elim (Bool-cases (is_risk_checked payload && not a.account_answers)) [
        | inl silent ↦ ([], λ w. rw (silent, after_quality) refl)
        | inr answered ↦ elim (Outcome-cases (enforce_risk divide default_point a payload)) [
          | inr (error, e) ↦ ([], λ w. rw (answered, e, after_quality) refl)
          | inl (u, e) ↦
              let (calls, same) = submit_intent-Adds a payload selected intent h in
              (calls, λ w. rw (answered, e, after_quality) (same w))
        ]
      ]

  check_opening-Adds :
      (selected : Option BrokerSymbol) (intent : TradeIntent)
      → opens payload.action ≡ true
      → Adds (check_opening divide default_point a payload selected intent)
  unfolding check_opening quality_failure
  check_opening-Adds none intent h = after_quality-Adds none intent h
  check_opening-Adds (some symbol) intent h =
      elim (Outcome-cases (quality_details divide default_point a payload)) [
        | inr (error, e) ↦ ([], λ w. rw (h, e) (ground arith))
        | inl (q, e) ↦
            let (calls, same) = after_quality-Adds (some symbol) intent h in
            (calls, λ w. rw (h, e) (same w))
      ]

  perform-Adds :
      (intent : TradeIntent)
      → opens payload.action ≡ true
      → Adds (perform divide default_point a payload intent)
  unfolding perform
  perform-Adds intent h = elim (Bool-cases (is_down a.route)) [
    | inl e ↦ ([], λ w. rw e refl)
    | inr down ↦
        elim (Bool-cases (a.is_paused || (not (is_active a.route) || not (usable a.connection)))) [
          | inl e ↦ ([], λ w. rw (down, e) refl)
          | inr going ↦ elim (Bool-cases (not a.broker_acquired)) [
            | inl e ↦ ([], λ w. rw (down, going, e) refl)
            | inr acquired ↦
                elim (Outcome-cases (selected_symbol a.saved_symbol payload.symbol a.symbols)) [
                  | inr (error, e) ↦ ([], λ w. rw (down, going, acquired, e) refl)
                  | inl (selected, e) ↦
                      let (calls, same) = check_opening-Adds selected intent h in
                      (calls, λ w. rw (down, going, acquired, e) (same w))
                ]
          ]
        ]
  ]

  handle_loaded-Adds :
      (intent : TradeIntent)
      → opens payload.action ≡ true
      → Adds (handle_loaded divide default_point a payload intent)
  unfolding handle_loaded
  handle_loaded-Adds intent h = elim (Bool-cases (not (may_execute intent.state))) [
    | inl e ↦ ([], λ w. rw e refl)
    | inr fresh ↦ elim (Bool-cases (a.lacks_subscription && opens payload.action)) [
      | inl e ↦ ([], λ w. rw (fresh, e) refl)
      | inr subscribed ↦ elim (Bool-cases (not a.lock_acquired)) [
        | inl e ↦ ([], λ w. rw (fresh, subscribed, e) refl)
        | inr locked ↦
            let (calls, same) = perform-Adds intent h in
            (calls, λ w. rw (fresh, subscribed, locked) (same w))
      ]
    ]
  ]

  -- If the delivery of an opening intent makes a broker call, then a second delivery that read the
  -- intent before the first one took the lock of the connection, and gets the same answers, makes
  -- one again, in the world that the first has left.
  pub handle_loaded-repeats :
      (w : World)
      → opens payload.action ≡ true
      → let first = (handle_loaded divide default_point a payload w.intent w).1 in
        let second = (handle_loaded divide default_point a payload w.intent first).1 in
        length w.calls < length first.calls → length first.calls < length second.calls
  handle_loaded-repeats w h sent =
      let (calls, same) = handle_loaded-Adds w.intent h in
      let first = (handle_loaded divide default_point a payload w.intent w).1 in
      omega (
        arith,
        sent,
        ap length (same w),
        ap length (same first),
        length-append calls w.calls,
        length-append calls first.calls,
      )
