-- ===== src/Reconciliation/Snapshot.antt =====
-- What a snapshot of the broker does to a copied trade (`apply_broker_snapshot` of
-- src/app/domains/copy_trading/reconciliation.py).
use mathlib.Core.Path.{subst}
use signalsync_be.Base.{
  ◌≡◌, ◌≢◌, ◌∙◌, ◌↔◌, refl, ap, ◌⊎◌, inl, inr, true, false, not, ◌||◌, Option, none, some, List,
  arith, Option-cases, Bool-cases, find_first, any,
}
use signalsync_be.Base.Int.{ℤ}
use signalsync_be.Base.Text.{Text}
use signalsync_be.Reconciliation.{
  BrokerItem, LifecycleState, open_trade, pending, closed, cancelled, CopiedTrade, option_eq, eq_ℤ,
  volume_or, has_id, str, safe_decimal, broker_value, is_activation, refresh, sync_open, activate,
  sync_trade, apply_broker_snapshot,
}

-- The moves of a trade's life that a snapshot makes.
pub data Moves : LifecycleState → LifecycleState → Type 0 where
  remains : {state : LifecycleState} → Moves state state
  closes : Moves open_trade closed
  fills : Moves pending open_trade
  lapses : Moves pending cancelled

eq_ℤ-eq : (a b : ℤ) → eq_ℤ a b ≡ true → a ≡ b
eq_ℤ-eq a b h = ground arith

eq_ℤ_self : (a : ℤ) → eq_ℤ a a ≡ true
eq_ℤ_self a = ground arith

option_eq-eq : (a b : Option ℤ) → option_eq a b ≡ true → a ≡ b
option_eq-eq none none h = refl
option_eq-eq none (some b) h = cc
option_eq-eq (some a) none h = cc
option_eq-eq (some a) (some b) h = ap some (eq_ℤ-eq a b h)

option_eq_self : (a : Option ℤ) → option_eq a a ≡ true
option_eq_self none = refl
option_eq_self (some a) = eq_ℤ_self a

volume_or_twice : (v old : Option ℤ) → volume_or v (volume_or v old) ≡ volume_or v old
unfolding volume_or
volume_or_twice v old = ground arith

option_eq-of : (a b : Option ℤ) → a ≡ b → option_eq a b ≡ true
option_eq-of a b e = subst (λ x. option_eq a x ≡ true) e (option_eq_self a)

refresh_flag :
    (trade : CopiedTrade) (volume sl tp : Option ℤ)
    → record trade { current_volume = volume; stop_loss = sl; take_profit = tp } ≡ trade
    → (not (option_eq trade.current_volume volume)
        || (not (option_eq trade.stop_loss sl) || not (option_eq trade.take_profit tp)))
      ≡ false
refresh_flag trade volume sl tp e =
    rw (option_eq-of trade.current_volume volume (cc))
      (rw (option_eq-of trade.stop_loss sl (cc)) (rw (option_eq-of trade.take_profit tp (cc))))

refresh-unchanged :
    (trade : CopiedTrade) (position : BrokerItem)
    → ((refresh trade position).1 ≡ false) ↔ ((refresh trade position).0 ≡ trade)
unfolding refresh
refresh-unchanged trade position =
    let volume = volume_or (safe_decimal position.volume) trade.current_volume in
    let sl = safe_decimal (broker_value position.stop_loss position.sl) in
    let tp = safe_decimal (broker_value position.take_profit position.tp) in
    (
      (λ h. cc (
        option_eq-eq trade.current_volume volume (ground arith),
        option_eq-eq trade.stop_loss sl (ground arith),
        option_eq-eq trade.take_profit tp (ground arith),
      )),
      refresh_flag trade volume sl tp,
    )

activate-ne :
    (trade : CopiedTrade) (item : Option BrokerItem)
    → trade.lifecycle_state ≡ pending
    → activate trade item ≢ trade
unfolding activate
activate-ne trade none e h = cc (ap (λ (t : CopiedTrade). t.lifecycle_state) h, e)
activate-ne trade (some item) e h = cc (ap (λ (t : CopiedTrade). t.lifecycle_state) h, e)

sync_open-Moves :
    (trade : CopiedTrade) (position : Option BrokerItem)
    → trade.lifecycle_state ≡ open_trade
    → Moves open_trade (sync_open trade position).0.lifecycle_state
unfolding sync_open
sync_open-Moves trade none e = closes
sync_open-Moves trade (some position) e = rw e remains

activate-Moves :
    (trade : CopiedTrade) (item : Option BrokerItem)
    → Moves pending (activate trade item).lifecycle_state
unfolding activate
activate-Moves trade none = lapses
activate-Moves trade (some item) = fills

sync_open-synced_at :
    (trade : CopiedTrade) (position : Option BrokerItem)
    → (sync_open trade position).0.broker_synced_at ≡ trade.broker_synced_at
unfolding sync_open
sync_open-synced_at trade none = refl
sync_open-synced_at trade (some position) = refl

activate-synced_at :
    (trade : CopiedTrade) (item : Option BrokerItem)
    → (activate trade item).broker_synced_at ≡ trade.broker_synced_at
unfolding activate
activate-synced_at trade none = refl
activate-synced_at trade (some item) = refl

module _ (positions orders : List BrokerItem) (client_order_id : Option Text) where
  -- The flag of a trade that is in a state, against what changes in it.
  sync_trade-unchanged :
      (state : LifecycleState) (trade : CopiedTrade)
      → trade.lifecycle_state ≡ state
      → ((sync_trade state trade positions orders client_order_id).1 ≡ false)
        ↔ ((sync_trade state trade positions orders client_order_id).0 ≡ trade)
  unfolding sync_trade
  sync_trade-unchanged open_trade trade e =
      elim (Option-cases (find_first (has_id (str trade.broker_position_id)) positions)) [
        | inl gone ↦
            rw gone ((λ h. cc), (λ h. cc (ap (λ (t : CopiedTrade). t.lifecycle_state) h, e)))
        | inr (p, there) ↦ rw there (refresh-unchanged trade p)
      ]
  sync_trade-unchanged pending trade e =
      elim (Bool-cases (any (has_id (str trade.broker_order_id)) orders)) [
        | inl there ↦ rw there ((λ h. refl), (λ h. refl))
        | inr gone ↦ rw gone (
          (λ h. cc),
          (λ h.
              absurd
                (activate-ne trade (find_first (is_activation client_order_id) positions) e h)),
        )
      ]
  sync_trade-unchanged closed trade e = ((λ h. refl), (λ h. refl))
  sync_trade-unchanged cancelled trade e = ((λ h. refl), (λ h. refl))

  sync_trade-Moves :
      (state : LifecycleState) (trade : CopiedTrade)
      → trade.lifecycle_state ≡ state
      → Moves state (sync_trade state trade positions orders client_order_id).0.lifecycle_state
  unfolding sync_trade
  sync_trade-Moves open_trade trade e =
      sync_open-Moves trade (find_first (has_id (str trade.broker_position_id)) positions) e
  sync_trade-Moves pending trade e =
      elim (Bool-cases (any (has_id (str trade.broker_order_id)) orders)) [
        | inl there ↦ rw (there, e) remains
        | inr gone ↦
            rw gone (activate-Moves trade (find_first (is_activation client_order_id) positions))
      ]
  sync_trade-Moves closed trade e = rw e remains
  sync_trade-Moves cancelled trade e = rw e remains

  sync_trade-terminal :
      (state : LifecycleState) (trade : CopiedTrade)
      → (state ≡ closed) ⊎ (state ≡ cancelled)
      → (sync_trade state trade positions orders client_order_id).0 ≡ trade
  unfolding sync_trade
  sync_trade-terminal open_trade trade h = absurd (ground arith)
  sync_trade-terminal pending trade h = absurd (ground arith)
  sync_trade-terminal closed trade h = refl
  sync_trade-terminal cancelled trade h = refl

  sync_trade-synced_at :
      (state : LifecycleState) (trade : CopiedTrade)
      → (sync_trade state trade positions orders client_order_id).0.broker_synced_at
        ≡ trade.broker_synced_at
  unfolding sync_trade
  sync_trade-synced_at open_trade trade =
      sync_open-synced_at trade (find_first (has_id (str trade.broker_position_id)) positions)
  sync_trade-synced_at pending trade =
      elim (Bool-cases (any (has_id (str trade.broker_order_id)) orders)) [
        | inl there ↦ rw there
        | inr gone ↦
            rw gone
              (activate-synced_at trade (find_first (is_activation client_order_id) positions))
      ]
  sync_trade-synced_at closed trade = refl
  sync_trade-synced_at cancelled trade = refl

  -- A snapshot moves a trade along its life only: an open one stays open or closes, a pending one
  -- stays pending, fills or lapses, and a closed or cancelled one keeps its state and, but for the
  -- time of the snapshot, every other field.
  pub apply_broker_snapshot-Moves :
      (trade : CopiedTrade) (observed_at : ℤ)
      → let (after, changed) =
          apply_broker_snapshot trade positions orders observed_at client_order_id in
        Moves trade.lifecycle_state after.lifecycle_state
        × ((trade.lifecycle_state ≡ closed) ⊎ (trade.lifecycle_state ≡ cancelled)
            → after ≡ record trade { broker_synced_at = observed_at })
  unfolding apply_broker_snapshot sync_trade
  apply_broker_snapshot-Moves trade observed_at = (
    sync_trade-Moves trade.lifecycle_state trade refl,
    (λ h.
        ap (λ (t : CopiedTrade). record t { broker_synced_at = observed_at })
          (sync_trade-terminal trade.lifecycle_state trade h)),
  )

  -- The flag that a snapshot returns is exact: it is false exactly when nothing but the time of the
  -- snapshot has changed in the trade.
  pub apply_broker_snapshot-changed :
      (trade : CopiedTrade) (observed_at : ℤ)
      → let (after, changed) =
          apply_broker_snapshot trade positions orders observed_at client_order_id in
        (changed ≡ false) ↔ (after ≡ record trade { broker_synced_at = observed_at })
  unfolding apply_broker_snapshot
  apply_broker_snapshot-changed trade observed_at =
      let flag = sync_trade-unchanged trade.lifecycle_state trade refl in
      (
        (λ h. ap (λ (t : CopiedTrade). record t { broker_synced_at = observed_at }) (flag.0 h)),
        (λ h.
            let after =
              (sync_trade trade.lifecycle_state trade positions orders client_order_id).0 in
            flag.1 (
              ap (λ (t : ℤ). record after { broker_synced_at = t })
                (sync_trade-synced_at trade.lifecycle_state trade)
              ∙ ap (λ (t : CopiedTrade). record t { broker_synced_at = trade.broker_synced_at })
                  h)),
      )
