-- ===== src/Reconciliation/Confirmed.antt =====
-- What a confirmed management action means for the trade: `broker_result_matches_intent` against
-- `apply_broker_snapshot` (src/app/domains/copy_trading/reconciliation.py).
use signalsync_be.Base.{
  ap, sym, ◌∙◌, ◌≡◌, ◌↔◌, refl, Bool, true, false, Option, none, some, List, [], ◌∷◌, arith,
  find_first, any,
}
use signalsync_be.Base.Int.{ℤ}
use signalsync_be.Base.Text.{Text}
use signalsync_be.Engine.{full_close}
use signalsync_be.Reconciliation.{
  BrokerItem, BrokerData, Intent, LifecycleState, open_trade, pending, closed, cancelled,
  CopiedTrade, has_id, str, management_matches, sync_open, sync_trade, refresh,
  apply_broker_snapshot, broker_result_matches_intent, wrong_client,
}

any-find_first :
    {A : Type 0} (test : A → Bool) (xs : List A)
    → (any test xs ≡ false) ↔ (find_first test xs ≡ none)
any-find_first test [] = ((λ h. refl), (λ h. refl))
any-find_first test (x ∷ xs) =
    let ih = any-find_first test xs in ((λ h. ground (arith, ih.0)), (λ h. ground (arith, ih.1)))

module _ (trade : CopiedTrade) (positions orders : List BrokerItem)
    (client_order_id : Option Text) where
  -- The snapshot of a trade that is open, by its position.
  sync_of_open :
      (state : LifecycleState)
      → state ≡ open_trade
      → (sync_trade state trade positions orders client_order_id).0
        ≡ (sync_open trade (find_first (has_id (str trade.broker_position_id)) positions)).0
  unfolding sync_trade
  sync_of_open open_trade e = refl
  sync_of_open pending e = cc
  sync_of_open closed e = cc
  sync_of_open cancelled e = cc

sync_open-closed :
    (trade : CopiedTrade) (position : Option BrokerItem)
    → trade.lifecycle_state ≡ open_trade
    → ((sync_open trade position).0.lifecycle_state ≡ closed) ↔ (position ≡ none)
unfolding sync_open refresh
sync_open-closed trade none e = ((λ h. refl), (λ h. refl))
sync_open-closed trade (some p) e = ((λ h. cc), (λ h. cc))

module _ (intent : Intent) (broker : BrokerData) (trade : CopiedTrade) (observed_at : ℤ)
    (client_order_id : Option Text) where
  -- A full close of an open trade with a position is confirmed exactly when a snapshot of the same
  -- positions closes the trade, if the data is not that of another order.
  pub full_close-confirmed_iff_closed :
      (position_id : Text)
      → intent.action ≡ full_close
      → wrong_client intent.client_order_id broker.client_order_id ≡ false
      → trade.lifecycle_state ≡ open_trade
      → trade.broker_position_id ≡ some position_id
      → let after =
          apply_broker_snapshot trade broker.positions broker.orders observed_at client_order_id in
        (broker_result_matches_intent intent broker (some trade) ≡ true)
        ↔ (after.0.lifecycle_state ≡ closed)
  unfolding broker_result_matches_intent management_matches apply_broker_snapshot
  full_close-confirmed_iff_closed position_id a right o i =
      let state =
        ap (λ (t : CopiedTrade). t.lifecycle_state)
          (sync_of_open trade broker.positions broker.orders client_order_id trade.lifecycle_state
            o) in
      let gone = any-find_first (has_id position_id) broker.positions in
      let shut =
        sync_open-closed trade (find_first (has_id (str trade.broker_position_id)) broker.positions)
          o in
      let same : str trade.broker_position_id ≡ position_id = rw i in
      (
        (λ h. state ∙ shut.1 (rw same (gone.0 (ground arith)))),
        (λ h. confirmed (gone.1 (rw same at (shut.0 (sym state ∙ h))))),
      )
    where
      confirmed :
          any (has_id position_id) broker.positions ≡ false
          → broker_result_matches_intent intent broker (some trade) ≡ true
      confirmed none_left = ground arith
