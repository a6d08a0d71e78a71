-- ===== src/Signals.antt =====
-- The choice of copied trades by the signal workers: `_route_accepts_message`,
-- `_select_copied_trade` and `_management_intent_targets` of
-- src/app/domains/copy_trading/workers.py.
pub mod Lifecycle
pub mod Meant
pub mod Chosen
pub mod Overdue
pub mod Expired
mod Examples
use signalsync_be.Base.{
  ℕ, Bool, true, false, not, ◌&&◌, ◌||◌, Option, none, some, List, [], ◌∷◌, map, leb, ◌==◌, is_some,
  select, find_first, if◌then◌else◌,
}
use signalsync_be.Base.Text.{Text, starts_with}
use signalsync_be.Symbols.{normalize_symbol}
use signalsync_be.Engine.{
  SignalAction, modify_sl_tp, break_even, partial_close, full_close, cancel_pending,
}

-- The fields of `CopiedTrade` that the choice reads.
pub record CopiedTrade : Type 0 where
  pub id : ℕ
  pub route_id : ℕ
  pub thread_id : ℕ
  pub signal_symbol : Text
  pub created_at : ℕ

-- `_COPIED_TRADE_MANAGEMENT_ACTIONS`
abbrev pub manages : SignalAction → Bool
manages modify_sl_tp = true
manages break_even = true
manages partial_close = true
manages full_close = true
manages cancel_pending = true
manages _ = false

abbrev pub is_full_close : SignalAction → Bool
is_full_close full_close = true
is_full_close _ = false

-- A route takes all messages of a channel, and of a group those of administrators, or all.
pub route_accepts_message : Bool → Bool → Bool → Bool
route_accepts_message from_group process_all_group_authors sender_is_admin =
    not from_group || process_all_group_authors || sender_is_admin

-- `sorted(..., key=lambda trade: trade.created_at)`, which keeps the order of equal keys.
unfoldable pub insert_by_age : CopiedTrade → List CopiedTrade → List CopiedTrade
insert_by_age trade [] = trade ∷ []
insert_by_age trade (t ∷ trades) =
    let rest = insert_by_age trade trades in
    if leb trade.created_at t.created_at then trade ∷ t ∷ trades else t ∷ rest

unfoldable pub oldest_first : List CopiedTrade → List CopiedTrade
unfolding insert_by_age
oldest_first [] = []
oldest_first (trade ∷ trades) = insert_by_age trade (oldest_first trades)

unfoldable pub insert_latest : CopiedTrade → List CopiedTrade → List CopiedTrade
insert_latest trade [] = trade ∷ []
insert_latest trade (t ∷ trades) =
    let rest = insert_latest trade trades in
    if leb t.created_at trade.created_at then trade ∷ t ∷ trades else t ∷ rest

unfoldable pub latest_first : List CopiedTrade → List CopiedTrade
unfolding insert_latest
latest_first [] = []
latest_first (trade ∷ trades) = insert_latest trade (latest_first trades)

-- One normalized symbol is the start of the other.
unfoldable pub symbols_meet : Text → Text → Bool
unfolding normalize_symbol
symbols_meet target own = starts_with own target || starts_with target own

unfoldable pub meets : Text → CopiedTrade → Bool
unfolding symbols_meet
meets symbol trade = symbols_meet (normalize_symbol symbol) (normalize_symbol trade.signal_symbol)

abbrev pub only : List CopiedTrade → Option CopiedTrade
only (trade ∷ []) = some trade
only _ = none

-- `_select_copied_trade`, by the symbol of the payload, none or empty where it has none
unfoldable pub select_copied_trade : Option Text → List CopiedTrade → Option CopiedTrade
unfolding latest_first meets
select_copied_trade none trades = only (latest_first trades)
select_copied_trade (some []) trades = only (latest_first trades)
select_copied_trade (some (c ∷ cs)) trades = find_first (meets (c ∷ cs)) (latest_first trades)

-- The test on the trades of a route.
unfoldable pub is_meant : SignalAction → ℕ → Option Text → CopiedTrade → Bool
unfolding meets
is_meant action thread_id none trade = trade.thread_id == thread_id
is_meant action thread_id (some []) trade = trade.thread_id == thread_id
is_meant action thread_id (some (c ∷ cs)) trade =
    if is_full_close action then meets (c ∷ cs) trade else trade.thread_id == thread_id

-- `_management_intent_targets`
unfoldable pub management_intent_targets :
    SignalAction → List CopiedTrade → ℕ → ℕ → Option Text → List (Option CopiedTrade)
unfolding oldest_first is_meant
management_intent_targets action trades route_id thread_id symbol =
    let route_trades = select (λ trade. trade.route_id == route_id) trades in
    let targets = select (is_meant action thread_id symbol) route_trades in
    if not (manages action) then none ∷ [] else map (λ trade. some trade) (oldest_first targets)
