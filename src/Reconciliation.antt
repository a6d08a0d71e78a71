-- ===== src/Reconciliation.antt =====
-- Reconciliation with the broker: src/app/domains/copy_trading/reconciliation.py.
-- A dictionary of the broker is a record of the keys that the code reads, each optional; numbers are
-- read by `Decimal(str(value))`. Prices and volumes are integers of a common small unit.
pub mod Snapshot
pub mod Confirmed
mod Examples
use signalsync_be.Base.{
  ℕ, zero, suc, Bool, true, false, not, ◌&&◌, ◌||◌, Option, none, some, List, [], ◌∷◌, ◌++◌, any,
  find_first, is_empty, if◌then◌else◌,
}
use signalsync_be.Base.Int.{ℤ, pos, ltb_ℤ, leb_ℤ}
use signalsync_be.Base.Python.{Decimal, finite}
use signalsync_be.Base.Text.{Text, codes, text_eq}
use signalsync_be.Engine.{
  SignalAction, open_market, place_pending, modify_sl_tp, break_even, partial_close, full_close,
  cancel_pending, additional_tp, status_only,
}

-- A value that is a number for `Decimal`, or is not.
pub data RawNumber : Type 0 where
  number : Decimal → RawNumber
  unreadable : RawNumber

-- A position or an order; `other_value` stands for the legacy keys `sl` and `tp`.
pub record BrokerItem : Type 0 where
  pub id : Option Text
  pub ticket : Option Text
  pub volume : Option RawNumber
  pub stop_loss : Option RawNumber
  pub sl : Option RawNumber
  pub take_profit : Option RawNumber
  pub tp : Option RawNumber
  pub client_id : Option Text
  pub comment : Text

pub data LifecycleState : Type 0 where
  open_trade pending closed cancelled : LifecycleState

-- The fields of `CopiedTrade` that reconciliation reads or writes.
pub record CopiedTrade : Type 0 where
  pub lifecycle_state : LifecycleState
  pub broker_position_id : Option Text
  pub broker_order_id : Option Text
  pub current_volume : Option ℤ
  pub stop_loss : Option ℤ
  pub take_profit : Option ℤ
  pub broker_synced_at : ℤ

-- `a if a is not None else b`
abbrev pub first_set : {A : Type 0} → Option A → Option A → Option A
first_set none b = b
first_set (some a) b = some a

-- `_broker_id` and `_broker_value`
abbrev pub broker_id : BrokerItem → Option Text
broker_id item = first_set item.id item.ticket

abbrev pub broker_value : Option RawNumber → Option RawNumber → Option RawNumber
broker_value metaapi legacy = first_set metaapi legacy

-- `str(value)` of a text or None
abbrev pub str : Option Text → Text
str none = codes "None"
str (some t) = t

-- `str(value or "")`
abbrev pub str_or_empty : Option Text → Text
str_or_empty none = []
str_or_empty (some t) = t

-- `_safe_decimal`
pub safe_decimal : Option RawNumber → Option ℤ
safe_decimal (some (number (finite z))) = some z
safe_decimal _ = none

abbrev pub eq_ℤ : ℤ → ℤ → Bool
eq_ℤ a b = leb_ℤ a b && leb_ℤ b a

-- `_decimal_matches`
abbrev pub both_equal : Option ℤ → Option ℤ → Bool
both_equal (some a) (some b) = eq_ℤ a b
both_equal _ _ = false

pub decimal_matches : Option RawNumber → Option RawNumber → Bool
unfolding safe_decimal
decimal_matches actual expected = both_equal (safe_decimal actual) (safe_decimal expected)

-- What the broker reports about an intent.
pub record BrokerData : Type 0 where
  pub client_order_id : Option Text
  pub positions : List BrokerItem
  pub orders : List BrokerItem
  pub history_orders : List BrokerItem
  pub deals : List BrokerItem

-- The payload of an intent; a price that Python takes for false is none here.
pub record Intent : Type 0 where
  pub client_order_id : Option Text
  pub action : SignalAction
  pub stop_loss : Option RawNumber
  pub entry : Option RawNumber
  pub take_profit : Option RawNumber

abbrev pub has_id : Text → BrokerItem → Bool
has_id wanted item = text_eq (str (broker_id item)) wanted

-- `expected is None or _decimal_matches(actual, expected)`
pub expected_matches : Option RawNumber → Option RawNumber → Bool
expected_matches actual none = true
expected_matches actual (some expected) = decimal_matches actual (some expected)

-- The expected stop loss: that of the payload, or the entry of a break-even.
abbrev pub entry_at_break_even : SignalAction → Option RawNumber → Option RawNumber
entry_at_break_even break_even entry = entry
entry_at_break_even _ entry = none

abbrev pub expected_stop : Intent → Option RawNumber
expected_stop intent = first_set intent.stop_loss (entry_at_break_even intent.action intent.entry)

-- the comparison with the first position of the id
pub protection_matches : Intent → Option BrokerItem → Bool
protection_matches intent none = false
protection_matches intent (some position) =
    expected_matches (broker_value position.stop_loss position.sl) (expected_stop intent)
    && expected_matches (broker_value position.take_profit position.tp) intent.take_profit

-- the tests on a copied trade, by the action
pub management_matches : SignalAction → Intent → BrokerData → CopiedTrade → Bool
management_matches modify_sl_tp intent broker copied =
    protection_matches intent
      (find_first (has_id (str_or_empty copied.broker_position_id)) broker.positions)
management_matches break_even intent broker copied =
    protection_matches intent
      (find_first (has_id (str_or_empty copied.broker_position_id)) broker.positions)
management_matches full_close intent broker copied =
    not (any (has_id (str_or_empty copied.broker_position_id)) broker.positions)
management_matches cancel_pending intent broker copied =
    not (any (has_id (str_or_empty copied.broker_order_id)) broker.orders)
management_matches partial_close intent broker copied = not (is_empty broker.deals)
management_matches _ intent broker copied = false

abbrev pub opens_trade : SignalAction → Bool
opens_trade open_market = true
opens_trade place_pending = true
opens_trade additional_tp = true
opens_trade _ = false

-- `client_order_id` is given and the data has another one
abbrev pub wrong_client : Option Text → Option Text → Bool
wrong_client none actual = false
wrong_client (some []) actual = false
wrong_client (some (c ∷ cs)) none = true
wrong_client (some (c ∷ cs)) (some t) = not (text_eq t (c ∷ cs))

abbrev pub found_anything : BrokerData → Bool
found_anything broker =
    not (is_empty broker.positions)
    || (not (is_empty broker.orders)
        || (not (is_empty broker.history_orders) || not (is_empty broker.deals)))

abbrev pub managed : Intent → BrokerData → Option CopiedTrade → Bool
managed intent broker none = false
managed intent broker (some copied) = management_matches intent.action intent broker copied

pub broker_result_matches_intent : Intent → BrokerData → Option CopiedTrade → Bool
broker_result_matches_intent intent broker copied =
    if wrong_client intent.client_order_id broker.client_order_id
    then false
    else if opens_trade intent.action
    then found_anything broker
    else managed intent broker copied

abbrev take : {A : Type 0} → ℕ → List A → List A
take zero xs = []
take (suc n) [] = []
take (suc n) (x ∷ xs) = x ∷ take n xs

-- A position opened from the pending order: by its client id, or by the comment `cpid:<id>`.
pub is_activation : Option Text → BrokerItem → Bool
is_activation none item = false
is_activation (some []) item = false
is_activation (some (c ∷ cs)) item =
    text_eq (str_or_empty item.client_id) (c ∷ cs)
    || text_eq item.comment (codes "cpid:" ++ take 20 (c ∷ cs))

-- `volume is not None and volume >= 0`, else the volume that the trade has
pub volume_or : Option ℤ → Option ℤ → Option ℤ
volume_or none old = old
volume_or (some v) old = if ltb_ℤ v (pos 0) then old else some v

abbrev pub option_eq : Option ℤ → Option ℤ → Bool
option_eq none none = true
option_eq (some a) (some b) = eq_ℤ a b
option_eq _ _ = false

abbrev pub Synced : Type 0
Synced = CopiedTrade × Bool

-- the values of the position for an open trade
pub refresh : CopiedTrade → BrokerItem → Synced
refresh trade position =
    let volume = volume_or (safe_decimal position.volume) trade.current_volume in
    let stop_loss = safe_decimal (broker_value position.stop_loss position.sl) in
    let take_profit = safe_decimal (broker_value position.take_profit position.tp) in
    (
      record trade { current_volume = volume; stop_loss = stop_loss; take_profit = take_profit },
      not (option_eq trade.current_volume volume)
          || (not (option_eq trade.stop_loss stop_loss)
              || not (option_eq trade.take_profit take_profit)),
    )

pub sync_open : CopiedTrade → Option BrokerItem → Synced
unfolding refresh
sync_open trade none =
    (record trade { lifecycle_state = closed; current_volume = some (pos 0) }, true)
sync_open trade (some position) = refresh trade position

pub activate : CopiedTrade → Option BrokerItem → CopiedTrade
activate trade none = record trade { lifecycle_state = cancelled }
activate trade (some item) = record trade {
  lifecycle_state = open_trade;
  broker_position_id = some (str (broker_id item));
  current_volume = volume_or (safe_decimal item.volume) trade.current_volume;
  stop_loss = safe_decimal (broker_value item.stop_loss item.sl);
  take_profit = safe_decimal (broker_value item.take_profit item.tp);
}

pub sync_trade :
    LifecycleState → CopiedTrade → List BrokerItem → List BrokerItem → Option Text → Synced
unfolding sync_open activate
sync_trade open_trade trade positions orders client_order_id =
    sync_open trade (find_first (has_id (str trade.broker_position_id)) positions)
sync_trade pending trade positions orders client_order_id =
    if any (has_id (str trade.broker_order_id)) orders
    then (trade, false)
    else (activate trade (find_first (is_activation client_order_id) positions), true)
sync_trade _ trade positions orders client_order_id = (trade, false)

pub apply_broker_snapshot :
    CopiedTrade → List BrokerItem → List BrokerItem → ℤ → Option Text → Synced
unfolding sync_trade
apply_broker_snapshot trade positions orders observed_at client_order_id =
    let (after, changed) =
      sync_trade trade.lifecycle_state trade positions orders client_order_id in
    (record after { broker_synced_at = observed_at }, changed)
