-- ===== src/Quality/Checked.antt =====
-- What a passed quality check promises (src/app/domains/copy_trading/quality.py).
use signalsync_be.Base.{◌≡◌, ◌⊎◌, inl, inr, true, false, Option, none, some, arith, if◌then◌else◌}
use signalsync_be.Base.Int.{ℤ, ◌-ℤ◌, ◌≤ℤ◌}
use signalsync_be.Base.Python.{returned, raised, finite, Outcome-cases}
use signalsync_be.Quality.{
  QuoteValue, number, QuoteTime, at, QualityRequest, QualityError, ExecutionQuality,
  within_trading_hours, quote_decimal, quote_at, check_prices, check_execution_quality,
  quote_unavailable, quote_time_missing, stale_quote, spread_too_wide, outside_trading_hours,
  slippage_too_high, point_of, slippage_of, max_zero,
}

-- At most the limit, where there is one.
abbrev pub WithinLimit : Option ℤ → ℤ → Type 0
WithinLimit none value = Unit
WithinLimit (some limit) value = value ≤ℤ limit

abbrev pub WithinLimit? : Option ℤ → Option ℤ → Type 0
WithinLimit? limit none = Unit
WithinLimit? limit (some value) = WithinLimit limit value

module _ (divide : ℤ → ℤ → ℤ) (default_point : ℤ) where
  -- The quote that the check has read.
  pub record Passed (r : QualityRequest) (q : ExecutionQuality) : Type 0 where
    pub bid : ℤ
    pub ask : ℤ
    pub quoted : ℤ
    pub bid_read : r.quote.bid ≡ number (finite bid)
    pub ask_read : r.quote.ask ≡ number (finite ask)
    pub time_read : r.quote.time ≡ at quoted
    pub in_hours :
        within_trading_hours r.hour r.trading_start_hour_utc r.trading_end_hour_utc ≡ true
    pub age : q.quote_age ≡ max_zero (r.now -ℤ quoted)
    pub fresh : q.quote_age ≤ℤ r.max_quote_age
    pub spread : q.spread_points ≡ divide (ask -ℤ bid) (point_of divide default_point r)
    pub narrow : WithinLimit r.max_spread_points q.spread_points
    pub slippage :
        q.slippage_points
        ≡ slippage_of divide default_point r.entry
            (if r.is_buy then ask else bid)
            (point_of divide default_point r)
    pub near : WithinLimit? r.max_slippage_points q.slippage_points

  quote_decimal-inv :
      (v : QuoteValue) (z : ℤ) → quote_decimal v ≡ returned z → v ≡ number (finite z)
  unfolding quote_decimal
  quote_decimal-inv v z h = ground arith

  quote_at-inv : (t : QuoteTime) (z : ℤ) → quote_at t ≡ returned z → t ≡ at z
  unfolding quote_at
  quote_at-inv t z h = ground arith

  -- A check that passes has read a finite bid and ask and a time, lies within the trading hours, and
  -- reports the age, the spread and the slippage of that quote, none above its limit.
  pub check_execution_quality-Passed :
      (r : QualityRequest) (q : ExecutionQuality)
      → check_execution_quality divide default_point r ≡ returned q
      → Passed r q
  unfolding check_execution_quality check_prices
  check_execution_quality-Passed r q h = elim (Outcome-cases (quote_decimal r.quote.bid)) [
    | inr (e, p) ↦ absurd (ground arith)
    | inl (bid, pb) ↦ elim (Outcome-cases (quote_decimal r.quote.ask)) [
      | inr (e, p) ↦ absurd (ground arith)
      | inl (ask, pa) ↦ elim (Outcome-cases (quote_at r.quote.time)) [
        | inr (e, p) ↦ absurd (ground arith)
        | inl (quoted, pt) ↦ record {
          bid = bid;
          ask = ask;
          quoted = quoted;
          bid_read = quote_decimal-inv r.quote.bid bid pb;
          ask_read = quote_decimal-inv r.quote.ask ask pa;
          time_read = quote_at-inv r.quote.time quoted pt;
          in_hours = ground arith;
          age = ground arith;
          fresh = ground arith;
          spread = ground arith;
          narrow = ground arith;
          slippage = ground arith;
          near = ground arith;
        }
      ]
    ]
  ]

  -- An error asks the user to act unless the quote is missing, unreadable or stale, which is retried;
  -- a spread that is too wide is retried only where the account waits, and nothing else is retried.
  pub check_execution_quality-errors :
      (r : QualityRequest) (e : QualityError)
      → check_execution_quality divide default_point r ≡ raised e
      → (((e.code ≡ quote_unavailable) ⊎ ((e.code ≡ quote_time_missing) ⊎ (e.code ≡ stale_quote)))
          × (e.retryable ≡ true)
          × (e.user_action_required ≡ false))
        ⊎ (((e.code ≡ spread_too_wide) × (e.retryable ≡ r.waits) × (e.user_action_required ≡ true))
            ⊎ (((e.code ≡ outside_trading_hours) ⊎ (e.code ≡ slippage_too_high))
                × (e.retryable ≡ false)
                × (e.user_action_required ≡ true)))
  unfolding check_execution_quality check_prices quote_decimal quote_at
  check_execution_quality-errors r e h = ground arith
