-- ===== src/Quality/Examples.antt =====
-- Examples for execution quality (src/app/domains/copy_trading/quality.py).
use signalsync_be.Base.{◌≡◌, refl, ◌/◌, true, some, suc}
use signalsync_be.Base.Int.{ℤ, pos, negsuc, ◌-ℤ◌}
use signalsync_be.Base.Python.{returned, raised, finite}
use signalsync_be.Quality.{
  within_trading_hours, hour_within, QualityRequest, QualityError, ExecutionQuality, number, at,
  spread_too_wide, check_execution_quality, check_prices, quote_decimal, quote_at,
}
use signalsync_be.Quality.Checked.{Passed, check_execution_quality-Passed}

abbrev quotient : ℤ → ℤ → ℤ
quotient (pos a) (pos (suc b)) = pos (a / suc b)
quotient (negsuc a) (pos (suc b)) = pos 0 -ℤ pos (suc a / suc b)
quotient a b = pos 0

abbrev order : QualityRequest
order = record {
  quote = record {
    bid = number (finite (pos 1000));
    ask = number (finite (pos 1030));
    time = at (pos 500);
  };
  point = pos 10;
  is_buy = true;
  entry = some (pos 1010);
  max_spread_points = some (pos 5);
  max_slippage_points = some (pos 2);
  max_quote_age = pos 60;
  waits = true;
  trading_start_hour_utc = some 22;
  trading_end_hour_utc = some 4;
  now = pos 510;
  hour = 23;
}

abbrev tight_order : QualityRequest
tight_order = record order { max_spread_points = some (pos 2) }

abbrev measured : ExecutionQuality
measured = record { spread_points = pos 3; quote_age = pos 10; slippage_points = some (pos 2) }

abbrev too_wide : QualityError
too_wide = record { code = spread_too_wide; retryable = true; user_action_required = true }

order_passes : check_execution_quality quotient (pos 1) order ≡ returned measured
unfolding check_execution_quality check_prices quote_decimal quote_at within_trading_hours
    hour_within ◌-ℤ◌
order_passes = refl

tight_order_fails : check_execution_quality quotient (pos 1) tight_order ≡ raised too_wide
unfolding check_execution_quality check_prices quote_decimal quote_at within_trading_hours
    hour_within ◌-ℤ◌
tight_order_fails = refl

check_execution_quality-Passed_example : Passed quotient (pos 1) order measured
check_execution_quality-Passed_example =
    check_execution_quality-Passed quotient (pos 1) order measured order_passes
