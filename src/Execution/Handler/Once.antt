-- ===== src/Execution/Handler/Once.antt =====
-- How often the broker is called for an intent
-- (src/app/domains/copy_trading/metaapi_execution.py).
use signalsync_be.Base.{
  suc, ◌≤◌, ◌≡◌, ◌⊎◌, refl, inl, inr, false, none, some, Option, List, [], ◌∷◌, length, arith,
  Bool-cases,
}
use signalsync_be.Base.Int.{ℤ}
use signalsync_be.Base.Python.{Outcome, Outcome-cases}
use signalsync_be.Symbols.{BrokerSymbol}
use signalsync_be.Execution.{
  TradeIntent, submitted, Payload, CallError, BrokerCall, select_trade, broker_call,
}
use signalsync_be.Execution.Chosen.{live_trades, selected_symbol}
use signalsync_be.Execution.Handler.{
  Answers, World, may_execute, note_failure, note_answer, call_broker, submit_intent, after_quality,
  quality_failure, check_opening, perform, handle_loaded, execution_handler, ReconcileAnswers,
  reconcile_intent,
}

-- Deliveries for one intent, by the type of their event: `intent.execute` and `intent.reconcile`.
pub data ExecutionEvent : Type 0 where
  executes : Answers → Payload → ExecutionEvent
  reconciles : ReconcileAnswers → ExecutionEvent

abbrev pub IsOnce : World → Type 0
IsOnce w = (length w.calls ≡ 0) ⊎ ((length w.calls ≡ 1) × (may_execute w.intent.state ≡ false))

module _ (a : Answers) (payload : Payload) where
  call_broker-IsOnce :
      (intent : TradeIntent) (result : Outcome CallError BrokerCall) (w : World)
      → length w.calls ≡ 0
      → may_execute w.intent.state ≡ false
      → IsOnce (call_broker a payload intent result w).1
  unfolding call_broker note_answer note_failure
  call_broker-IsOnce intent result w none_sent closed = ground arith

  submit_intent-IsOnce :
      (selected : Option BrokerSymbol) (intent : TradeIntent) (w : World)
      → length w.calls ≡ 0
      → IsOnce (submit_intent a payload selected intent w).1
  unfolding submit_intent
  submit_intent-IsOnce selected intent w h = elim (Bool-cases a.saves_submission) [
    | inl e ↦ rw e (
        call_broker-IsOnce
          (record intent { state = submitted; attempt_count = suc intent.attempt_count })
          (broker_call payload.action payload (select_trade (live_trades w.trades) payload)
            selected)
          (record w {
            intent = record intent { state = submitted; attempt_count = suc intent.attempt_count };
          })
          h refl)
    | inr e ↦ rw e (inl h)
  ]

module _ (divide : ℤ → ℤ → ℤ) (default_point : ℤ) where
  after_quality-IsOnce :
      (a : Answers) (payload : Payload) (selected : Option BrokerSymbol) (intent : TradeIntent)
      (w : World)
      → length w.calls ≡ 0
      → IsOnce (after_quality divide default_point a payload selected intent w).1
  unfolding after_quality
  after_quality-IsOnce a payload selected intent w h =
      ground (arith, submit_intent-IsOnce a payload selected intent w h)

  check_opening-IsOnce :
      (a : Answers) (payload : Payload) (selected : Option BrokerSymbol) (intent : TradeIntent)
      (w : World)
      → length w.calls ≡ 0
      → IsOnce (check_opening divide default_point a payload selected intent w).1
  unfolding check_opening quality_failure
  check_opening-IsOnce a payload none intent w h = after_quality-IsOnce a payload none intent w h
  check_opening-IsOnce a payload (some symbol) intent w h =
      ground (arith, after_quality-IsOnce a payload (some symbol) intent w h)

  perform-IsOnce :
      (a : Answers) (payload : Payload) (intent : TradeIntent) (w : World)
      → length w.calls ≡ 0
      → IsOnce (perform divide default_point a payload intent w).1
  unfolding perform
  perform-IsOnce a payload intent w h =
      elim (Outcome-cases (selected_symbol a.saved_symbol payload.symbol a.symbols)) [
        | inl (selected, e) ↦
            rw e (ground (arith, check_opening-IsOnce a payload selected intent w h))
        | inr (error, e) ↦ rw e (ground arith)
      ]

  handle_loaded-IsOnce :
      (a : Answers) (payload : Payload) (w : World)
      → IsOnce w
      → IsOnce (handle_loaded divide default_point a payload w.intent w).1
  unfolding handle_loaded
  handle_loaded-IsOnce a payload w h = elim h [
    | inl none_sent ↦ ground (arith, perform-IsOnce a payload w.intent w none_sent)
    | inr (one_sent, closed) ↦ rw closed (inr (one_sent, closed))
  ]

  pub handle : ExecutionEvent → World → World
  handle (executes a payload) w = (execution_handler divide default_point a payload w).1
  handle (reconciles a) w = (reconcile_intent a w).1

  pub handle_all : List ExecutionEvent → World → World
  unfolding handle
  handle_all [] w = w
  handle_all (event ∷ events) w = handle_all events (handle event w)

  handle-IsOnce : (event : ExecutionEvent) (w : World) → IsOnce w → IsOnce (handle event w)
  unfolding handle execution_handler reconcile_intent
  handle-IsOnce (executes a payload) w h = ground (arith, handle_loaded-IsOnce a payload w h)
  handle-IsOnce (reconciles a) w h = ground arith

  handle_all-IsOnce :
      (events : List ExecutionEvent) (w : World) → IsOnce w → IsOnce (handle_all events w)
  unfolding handle_all
  handle_all-IsOnce [] w h = h
  handle_all-IsOnce (event ∷ events) w h =
      handle_all-IsOnce events (handle event w) (handle-IsOnce event w h)

  -- Whatever deliveries of an intent are handled one after another, repeated, failed or cut off by
  -- an exception before or after the broker call, and with whatever answers of the outside, the
  -- broker is called for it at most once, if it was not called for it before.
  pub handle_all-once :
      (events : List ExecutionEvent) (w : World)
      → w.calls ≡ []
      → length (handle_all events w).calls ≤ 1
  handle_all-once events w h = ground (arith, handle_all-IsOnce events w (inl (rw h refl)))
