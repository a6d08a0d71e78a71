-- ===== src/Quality/Hours.antt =====
-- Trading hours (`within_trading_hours` of src/app/domains/copy_trading/quality.py).
use signalsync_be.Base.{ℕ, ◌+◌, ◌-◌, ◌%◌, ◌<◌, ◌≡◌, ◌≢◌, ◌↔◌, true, not, some, arith}
use signalsync_be.Quality.{within_trading_hours}

-- An hour lies in a window exactly when it is fewer hours after the start, round the clock, than
-- the end is: windows over midnight are windows like all others. A window whose start is its end
-- is the whole day.
pub within_trading_hours-clock :
    (hour start end : ℕ)
    → hour < 24
    → start < 24
    → end < 24
    → start ≢ end
    → (within_trading_hours hour (some start) (some end) ≡ true)
      ↔ ((hour + 24 - start) % 24 < (end + 24 - start) % 24)
unfolding within_trading_hours
within_trading_hours-clock hour start end h s e ne = ((λ t. ground arith), (λ t. ground arith))

-- A window and the window from its end to its start share no hour, and together are the whole day.
pub within_trading_hours-complement :
    (hour start end : ℕ)
    → start ≢ end
    → within_trading_hours hour (some end) (some start)
      ≡ not (within_trading_hours hour (some start) (some end))
unfolding within_trading_hours
within_trading_hours-complement hour start end ne = ground arith
