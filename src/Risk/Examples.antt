-- ===== src/Risk/Examples.antt =====
-- Examples for the limits of an account (src/app/domains/copy_trading/execution.py).
use signalsync_be.Base.{inl, inr, ◌≡◌, ◌≢◌, ◌↔◌, refl, true, some, [], ◌∷◌, ◌/◌, suc}
use signalsync_be.Base.Int.{ℤ, pos, negsuc, ◌-ℤ◌}
use signalsync_be.Base.Python.{returned, raised}
use signalsync_be.Base.Text.{codes, has_content, is_space, symbol_chars, is_symbol_char, to_upper}
use signalsync_be.Risk.{RiskRequest, symbol_not_allowed, ensure_account_risk_within_limits}
use signalsync_be.Risk.Limits.{IsWithinLimits, ensure_account_risk_iff}
use signalsync_be.Risk.Lists.{ensure_account_risk-punctuation}

-- Division of whole numbers that rounds towards zero, as far as the check uses it.
abbrev quotient : ℤ → ℤ → ℤ
quotient (pos a) (pos (suc b)) = pos (a / suc b)
quotient (negsuc a) (pos (suc b)) = pos 0 -ℤ pos (suc a / suc b)
quotient a b = pos 0

abbrev request : RiskRequest
request = record {
  symbol = codes "XAUUSD";
  signal_volume = 10;
  current_exposure = 40;
  current_positions = 2;
  equity = some (pos 9000);
  daily_equity_anchor = some (pos 10000);
  peak_equity = some (pos 12000);
  max_lot_per_trade = 20;
  max_total_lot = 50;
  max_open_positions = 3;
  daily_loss_limit = some (pos 1500);
  max_drawdown_percent = some (pos 50);
  allowed_symbols = [];
  blocked_symbols = codes "BTC" ∷ [];
}

ensure_account_risk_iff_example :
    (ensure_account_risk_within_limits quotient request ≡ returned tt)
    ↔ IsWithinLimits quotient request
ensure_account_risk_iff_example = ensure_account_risk_iff quotient request

dash_has_content : has_content (codes "-") ≡ true
unfolding has_content is_space
dash_has_content = refl

dash_is_empty : symbol_chars (codes "-") ≡ []
unfolding symbol_chars is_symbol_char to_upper
dash_is_empty = refl

abbrev blocking : RiskRequest
blocking = record request { blocked_symbols = codes "BTC" ∷ codes "-" ∷ [] }

abbrev allowing : RiskRequest
allowing = record request { allowed_symbols = codes "-" ∷ [] }

ensure_account_risk-punctuation_example :
    (ensure_account_risk_within_limits quotient blocking ≢ returned tt)
    × (ensure_account_risk_within_limits quotient allowing ≢ raised symbol_not_allowed)
ensure_account_risk-punctuation_example =
    ensure_account_risk-punctuation quotient (codes "-") blocking allowing dash_has_content
      dash_is_empty (inr (inl refl)) (inl refl)
