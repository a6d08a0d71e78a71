-- ===== src/Risk.antt =====
-- The limits of an account: `ensure_exposure_within_limit`, `_matches_symbol_list` and
-- `ensure_account_risk_within_limits` of src/app/domains/copy_trading/execution.py.
-- Lots are whole numbers of a common small unit; equity and the limits on it are integers of such
-- a unit.
pub mod Limits
pub mod Lists
mod Examples
use signalsync_be.Base.{
  ℕ, ◌+◌, Bool, true, false, not, ◌&&◌, ◌||◌, Option, none, some, List, ltb, leb, if◌then◌else◌,
  any, is_empty, is_none, is_some,
}
use signalsync_be.Base.Int.{ℤ, pos, ◌-ℤ◌, ◌*ℤ◌, ltb_ℤ, leb_ℤ}
use signalsync_be.Base.Python.{Outcome, returned, raised, raise_if, ◌>>=◌, ◌>>◌}
use signalsync_be.Base.Text.{Text, starts_with, has_content}
use signalsync_be.Symbols.{normalize_symbol}

-- One constructor for each `ValueError` message.
pub data RiskError : Type 0 where
  exposure_over_maximum trade_over_maximum total_over_maximum positions_at_maximum : RiskError
  symbol_not_allowed symbol_blocked equity_unavailable daily_loss_reached drawdown_reached :
      RiskError

pub ensure_exposure_within_limit : ℕ → ℕ → ℕ → Outcome RiskError (Unit {0})
ensure_exposure_within_limit current_exposure signal_volume maximum =
    raise_if (ltb maximum signal_volume || ltb maximum (current_exposure + signal_volume))
      exposure_over_maximum

unfoldable pub matches_candidate : Text → Text → Bool
matches_candidate normalized candidate =
    has_content candidate && starts_with normalized (normalize_symbol candidate)

unfoldable pub matches_symbol_list : Text → List Text → Bool
unfolding matches_candidate
matches_symbol_list symbol configured = any (matches_candidate (normalize_symbol symbol)) configured

-- The keyword arguments of `ensure_account_risk_within_limits`.
pub record RiskRequest : Type 0 where
  pub symbol : Text
  pub signal_volume : ℕ
  pub current_exposure : ℕ
  pub current_positions : ℕ
  pub equity : Option ℤ
  pub daily_equity_anchor : Option ℤ
  pub peak_equity : Option ℤ
  pub max_lot_per_trade : ℕ
  pub max_total_lot : ℕ
  pub max_open_positions : ℕ
  pub daily_loss_limit : Option ℤ
  pub max_drawdown_percent : Option ℤ
  pub allowed_symbols : List Text
  pub blocked_symbols : List Text

unfoldable pub daily_loss_hit : Option ℤ → Option ℤ → ℤ → Bool
daily_loss_hit (some limit) (some anchor) equity = leb_ℤ limit (anchor -ℤ equity)
daily_loss_hit _ _ equity = false

-- `divide a b` is `a / b` in the decimal context.
module _ (divide : ℤ → ℤ → ℤ) where
  unfoldable pub drawdown_hit : Option ℤ → Option ℤ → ℤ → Bool
  drawdown_hit (some limit) (some peak) equity =
      ltb_ℤ (pos 0) peak && leb_ℤ limit (divide (peak -ℤ equity) peak *ℤ pos 100)
  drawdown_hit _ _ equity = false

  -- the tests after `if equity is None: return`
  unfoldable pub check_equity : RiskRequest → Option ℤ → Outcome RiskError (Unit {0})
  check_equity r none = returned tt
  check_equity r (some equity) = do
    raise_if (daily_loss_hit r.daily_loss_limit r.daily_equity_anchor equity) daily_loss_reached
    raise_if (drawdown_hit r.max_drawdown_percent r.peak_equity equity) drawdown_reached

  unfoldable pub ensure_account_risk_within_limits : RiskRequest → Outcome RiskError (Unit {0})
  ensure_account_risk_within_limits r = do
    raise_if (ltb r.max_lot_per_trade r.signal_volume) trade_over_maximum
    raise_if (ltb r.max_total_lot (r.current_exposure + r.signal_volume)) total_over_maximum
    raise_if (leb r.max_open_positions r.current_positions) positions_at_maximum
    raise_if
        (not (is_empty r.allowed_symbols) && not (matches_symbol_list r.symbol r.allowed_symbols))
        symbol_not_allowed
    raise_if (matches_symbol_list r.symbol r.blocked_symbols) symbol_blocked
    raise_if (is_none r.equity && (is_some r.daily_loss_limit || is_some r.max_drawdown_percent))
        equity_unavailable
    check_equity r r.equity
