-- ===== src/Execution/Account.antt =====
-- The account behind an intent: what `_enforce_live_account_risk` of
-- src/app/domains/copy_trading/metaapi_execution.py gathers for the risk check.
use signalsync_be.Base.{
  ℕ, ◌+◌, Bool, true, false, Option, none, some, List, [], ◌∷◌, ◌==◌, if◌then◌else◌, length,
}
use signalsync_be.Base.Int.{ℤ, ltb_ℤ}
use signalsync_be.Base.Text.{Text}
use signalsync_be.Risk.{RiskRequest}
use signalsync_be.Execution.{Payload}

-- The fields of `CopyAccountPolicy` that the risk check reads or writes.
pub record AccountPolicy : Type 0 where
  pub max_lot_per_trade : ℕ
  pub max_lot : ℕ
  pub max_open_positions : ℕ
  pub daily_equity_anchor_date : Option ℕ
  pub daily_equity_anchor : Option ℤ
  pub peak_equity : Option ℤ
  pub daily_loss_limit : Option ℤ
  pub max_drawdown_percent : Option ℤ
  pub allowed_symbols : List Text
  pub blocked_symbols : List Text

-- A trade of the account that is open or pending, as far as the exposure asks.
pub record ActiveTrade : Type 0 where
  pub current_volume : Option ℕ
  pub original_volume : Option ℕ

abbrev is_date : ℕ → Option ℕ → Bool
is_date today none = false
is_date today (some date) = date == today

abbrev is_peak : ℤ → Option ℤ → Bool
is_peak equity none = true
is_peak equity (some peak) = ltb_ℤ peak equity

abbrev anchor_day : ℤ → ℕ → AccountPolicy → AccountPolicy
anchor_day equity today policy =
    if is_date today policy.daily_equity_anchor_date
    then policy
    else record policy { daily_equity_anchor_date = some today; daily_equity_anchor = some equity }

abbrev raise_peak : ℤ → AccountPolicy → AccountPolicy
raise_peak equity policy =
    if is_peak equity policy.peak_equity
    then record policy { peak_equity = some equity }
    else policy

-- The anchor of the day and the peak, moved by the live equity.
unfoldable pub roll_anchors : Option ℤ → ℕ → AccountPolicy → AccountPolicy
roll_anchors none today policy = policy
roll_anchors (some equity) today policy = raise_peak equity (anchor_day equity today policy)

-- `trade.current_volume or trade.original_volume or 0`
abbrev or_zero : Option ℕ → ℕ
or_zero none = 0
or_zero (some volume) = volume

abbrev exposure_of : ActiveTrade → ℕ
exposure_of trade =
    let current = or_zero trade.current_volume in
    if current == 0 then or_zero trade.original_volume else current

unfoldable pub current_exposure : List ActiveTrade → ℕ
current_exposure [] = 0
current_exposure (trade ∷ trades) = exposure_of trade + current_exposure trades

-- `str(payload.get("symbol") or "")`
abbrev symbol_or_empty : Option Text → Text
symbol_or_empty none = []
symbol_or_empty (some symbol) = symbol

-- The arguments of `ensure_account_risk_within_limits`.
unfoldable pub risk_request :
    AccountPolicy → Option ℤ → ℕ → List ActiveTrade → Payload → RiskRequest
unfolding roll_anchors
risk_request policy equity today active_trades payload =
    let policy' = roll_anchors equity today policy in
    record {
      symbol = symbol_or_empty payload.symbol;
      signal_volume = payload.volume;
      current_exposure = current_exposure active_trades;
      current_positions = length active_trades;
      equity = equity;
      daily_equity_anchor = policy'.daily_equity_anchor;
      peak_equity = policy'.peak_equity;
      max_lot_per_trade = policy'.max_lot_per_trade;
      max_total_lot = policy'.max_lot;
      max_open_positions = policy'.max_open_positions;
      daily_loss_limit = policy'.daily_loss_limit;
      max_drawdown_percent = policy'.max_drawdown_percent;
      allowed_symbols = policy'.allowed_symbols;
      blocked_symbols = policy'.blocked_symbols;
    }
