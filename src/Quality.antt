-- ===== src/Quality.antt =====
-- Execution quality: `within_trading_hours` and `check_execution_quality` of
-- src/app/domains/copy_trading/quality.py.
-- Prices and times are integers of a common small unit; `divide a b` is `a / b` in the decimal
-- context. A quote is what the code reads of the price dictionary.
pub mod Hours
pub mod Checked
mod Examples
use signalsync_be.Base.{
  ℕ, ◌+◌, ◌≤◌, Bool, true, false, not, ◌&&◌, ◌||◌, Option, none, some, ltb, leb, ◌==◌,
  if◌then◌else◌, is_none,
}
use signalsync_be.Base.Int.{ℤ, pos, ◌-ℤ◌, ltb_ℤ, leb_ℤ}
use signalsync_be.Base.Python.{Outcome, returned, raised, raise_if, Decimal, finite, ◌>>=◌, ◌>>◌}

-- `hour` is the hour of the day in UTC.
unfoldable pub hour_within : ℕ → ℕ → ℕ → Bool
hour_within hour start end =
    if start == end
    then true
    else if ltb start end
    then leb start hour && ltb hour end
    else leb start hour || ltb hour end

unfoldable pub within_trading_hours : ℕ → Option ℕ → Option ℕ → Bool
unfolding hour_within
within_trading_hours hour (some start) (some end) = hour_within hour start end
within_trading_hours hour _ _ = true

-- A value of the price dictionary, as `Decimal(str(value))` reads it.
pub data QuoteValue : Type 0 where
  number : Decimal → QuoteValue
  unreadable : QuoteValue

-- `price.get("time") or price.get("brokerTime")`: a time, a text that is no time, or nothing.
pub data QuoteTime : Type 0 where
  at : ℤ → QuoteTime
  malformed missing : QuoteTime

pub record Quote : Type 0 where
  pub bid : QuoteValue
  pub ask : QuoteValue
  pub time : QuoteTime

pub data QualityCode : Type 0 where
  outside_trading_hours quote_unavailable quote_time_missing : QualityCode
  stale_quote spread_too_wide slippage_too_high : QualityCode

pub record QualityError : Type 0 where
  pub code : QualityCode
  pub retryable : Bool
  pub user_action_required : Bool

pub record ExecutionQuality : Type 0 where
  pub spread_points : ℤ
  pub quote_age : ℤ
  pub slippage_points : Option ℤ

-- The keyword arguments of `check_execution_quality`; `waits` is `high_spread_behavior == "wait"`.
pub record QualityRequest : Type 0 where
  pub quote : Quote
  pub point : ℤ
  pub is_buy : Bool
  pub entry : Option ℤ
  pub max_spread_points : Option ℤ
  pub max_slippage_points : Option ℤ
  pub max_quote_age : ℤ
  pub waits : Bool
  pub trading_start_hour_utc : Option ℕ
  pub trading_end_hour_utc : Option ℕ
  pub now : ℤ
  pub hour : ℕ

abbrev pub user_error : QualityCode → QualityError
user_error code = record { code = code; retryable = false; user_action_required = true }

abbrev pub passing_error : QualityCode → QualityError
passing_error code = record { code = code; retryable = true; user_action_required = false }

-- `_quote_decimal`
unfoldable pub quote_decimal : QuoteValue → Outcome QualityError ℤ
quote_decimal (number (finite z)) = returned z
quote_decimal _ = raised (passing_error quote_unavailable)

unfoldable pub quote_at : QuoteTime → Outcome QualityError ℤ
quote_at (at t) = returned t
quote_at malformed = raised (passing_error quote_unavailable)
quote_at missing = raised (passing_error quote_time_missing)

-- `max(0.0, ...)` and `abs(...)`
abbrev pub max_zero : ℤ → ℤ
max_zero z = if ltb_ℤ z (pos 0) then pos 0 else z

abbrev pub abs : ℤ → ℤ
abs z = if ltb_ℤ z (pos 0) then pos 0 -ℤ z else z

-- `limit is not None and value > limit`
abbrev pub exceeds : Option ℤ → ℤ → Bool
exceeds none value = false
exceeds (some limit) value = ltb_ℤ limit value

abbrev pub exceeds_some : Option ℤ → Option ℤ → Bool
exceeds_some limit none = false
exceeds_some limit (some value) = exceeds limit value

module _ (divide : ℤ → ℤ → ℤ) (default_point : ℤ) where
  abbrev pub point_of : QualityRequest → ℤ
  point_of r = if ltb_ℤ (pos 0) r.point then r.point else default_point

  abbrev pub slippage_of : Option ℤ → ℤ → ℤ → Option ℤ
  slippage_of none market_price point = none
  slippage_of (some entry) market_price point = some (divide (abs (market_price -ℤ entry)) point)

  -- the tests on the prices, once bid, ask and time are read
  unfoldable pub check_prices : QualityRequest → ℤ → ℤ → ℤ → Outcome QualityError ExecutionQuality
  check_prices r bid ask quoted = do
    let quote_age = max_zero (r.now -ℤ quoted)
    raise_if (ltb_ℤ r.max_quote_age quote_age) (passing_error stale_quote)
    let spread = divide (ask -ℤ bid) (point_of r)
    raise_if (exceeds r.max_spread_points spread)
        (record { code = spread_too_wide; retryable = r.waits; user_action_required = true })
    let slippage = slippage_of r.entry (if r.is_buy then ask else bid) (point_of r)
    raise_if (exceeds_some r.max_slippage_points slippage) (user_error slippage_too_high)
    returned (record { spread_points = spread; quote_age = quote_age; slippage_points = slippage })

  unfoldable pub check_execution_quality : QualityRequest → Outcome QualityError ExecutionQuality
  check_execution_quality r = do
    raise_if (not (within_trading_hours r.hour r.trading_start_hour_utc r.trading_end_hour_utc))
        (user_error outside_trading_hours)
    bid ← quote_decimal r.quote.bid
    ask ← quote_decimal r.quote.ask
    quoted ← quote_at r.quote.time
    check_prices r bid ask quoted
