-- ===== src/Reconciliation/Examples.antt =====
-- Examples for reconciliation (src/app/domains/copy_trading/reconciliation.py).
use signalsync_be.Base.{◌≡◌, ◌↔◌, ◌⊎◌, refl, true, none, some, [], ◌∷◌}
use signalsync_be.Base.Int.{pos}
use signalsync_be.Base.Python.{finite}
use signalsync_be.Base.Text.{codes}
use signalsync_be.Engine.{full_close}
use signalsync_be.Reconciliation.{
  BrokerItem, CopiedTrade, BrokerData, Intent, number, unreadable, open_trade, pending, closed,
  cancelled, apply_broker_snapshot, broker_result_matches_intent,
}
use signalsync_be.Reconciliation.Snapshot.{Moves, apply_broker_snapshot-Moves}
use signalsync_be.Reconciliation.Confirmed.{full_close-confirmed_iff_closed}

abbrev position : BrokerItem
position = record {
  id = some (codes "P1");
  ticket = none;
  volume = some (number (finite (pos 20)));
  stop_loss = some (number (finite (pos 2300)));
  sl = none;
  take_profit = some unreadable;
  tp = none;
  client_id = some (codes "C1");
  comment = [];
}

abbrev pending_trade : CopiedTrade
pending_trade = record {
  lifecycle_state = pending;
  broker_position_id = none;
  broker_order_id = some (codes "O1");
  current_volume = some (pos 20);
  stop_loss = none;
  take_profit = none;
  broker_synced_at = pos 0;
}

abbrev running_trade : CopiedTrade
running_trade = record pending_trade {
  lifecycle_state = open_trade;
  broker_position_id = some (codes "P1");
}

abbrev close_intent : Intent
close_intent = record {
  client_order_id = some (codes "C1");
  action = full_close;
  stop_loss = none;
  entry = none;
  take_profit = none;
}

abbrev broker_data : BrokerData
broker_data = record {
  client_order_id = some (codes "C1");
  positions = position ∷ [];
  orders = [];
  history_orders = [];
  deals = [];
}

apply_broker_snapshot-Moves_example :
    let (after, changed) =
      apply_broker_snapshot pending_trade (position ∷ []) [] (pos 9) (some (codes "C1")) in
    Moves pending after.lifecycle_state
    × ((pending ≡ closed) ⊎ (pending ≡ cancelled)
        → after ≡ record pending_trade { broker_synced_at = pos 9 })
apply_broker_snapshot-Moves_example =
    apply_broker_snapshot-Moves (position ∷ []) [] (some (codes "C1")) pending_trade (pos 9)

full_close-confirmed_iff_closed_example :
    let after =
      apply_broker_snapshot running_trade (position ∷ []) [] (pos 9) (some (codes "C1")) in
    (broker_result_matches_intent close_intent broker_data (some running_trade) ≡ true)
    ↔ (after.0.lifecycle_state ≡ closed)
full_close-confirmed_iff_closed_example =
    full_close-confirmed_iff_closed close_intent broker_data running_trade (pos 9)
      (some (codes "C1")) (codes "P1") refl refl refl refl
