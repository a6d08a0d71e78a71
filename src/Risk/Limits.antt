-- ===== src/Risk/Limits.antt =====
-- What passes the risk check (`ensure_account_risk_within_limits` of
-- src/app/domains/copy_trading/execution.py).
use signalsync_be.Base.{
  ◌+◌, ◌≤◌, ◌<◌, ◌≡◌, ◌≢◌, refl, ◌↔◌, true, false, Option, none, some, [], arith, is_empty, not,
  ◌&&◌, ◌||◌, is_none, is_some,
}
use signalsync_be.Base.Int.{ℤ, pos, ◌-ℤ◌, ◌*ℤ◌, ◌<ℤ◌}
use signalsync_be.Base.Python.{returned}
use signalsync_be.Risk.{
  RiskRequest, matches_symbol_list, daily_loss_hit, drawdown_hit, check_equity,
  ensure_account_risk_within_limits,
}

module _ (divide : ℤ → ℤ → ℤ) where
  -- The limits that an order respects, without the tests of the code.
  pub record IsWithinLimits (r : RiskRequest) : Type 0 where
    pub per_trade : r.signal_volume ≤ r.max_lot_per_trade
    pub total : r.current_exposure + r.signal_volume ≤ r.max_total_lot
    pub room : r.current_positions < r.max_open_positions
    pub allowed : r.allowed_symbols ≢ [] → matches_symbol_list r.symbol r.allowed_symbols ≡ true
    pub not_blocked : matches_symbol_list r.symbol r.blocked_symbols ≡ false
    pub equity_known :
        r.equity ≡ none → (r.daily_loss_limit ≡ none) × (r.max_drawdown_percent ≡ none)
    pub loss_below :
        (equity limit anchor : ℤ)
        → r.equity ≡ some equity
        → r.daily_loss_limit ≡ some limit
        → r.daily_equity_anchor ≡ some anchor
        → (anchor -ℤ equity) <ℤ limit
    pub drawdown_below :
        (equity limit peak : ℤ)
        → r.equity ≡ some equity
        → r.max_drawdown_percent ≡ some limit
        → r.peak_equity ≡ some peak
        → pos 0 <ℤ peak
        → (divide (peak -ℤ equity) peak *ℤ pos 100) <ℤ limit

loss_clear :
    (l a : Option ℤ) (equity : ℤ)
    → ((limit anchor : ℤ) → l ≡ some limit → a ≡ some anchor → (anchor -ℤ equity) <ℤ limit)
    → daily_loss_hit l a equity ≡ false
unfolding daily_loss_hit
loss_clear none a equity h = refl
loss_clear (some limit) none equity h = refl
loss_clear (some limit) (some anchor) equity h = ground (arith, h limit anchor refl refl)

module _ (divide : ℤ → ℤ → ℤ) where
  drawdown_clear :
      (l p : Option ℤ) (equity : ℤ)
      → ((limit peak : ℤ)
          → l ≡ some limit
          → p ≡ some peak
          → pos 0 <ℤ peak
          → (divide (peak -ℤ equity) peak *ℤ pos 100) <ℤ limit)
      → drawdown_hit divide l p equity ≡ false
  unfolding drawdown_hit
  drawdown_clear none p equity h = refl
  drawdown_clear (some limit) none equity h = refl
  drawdown_clear (some limit) (some peak) equity h = ground (arith, h limit peak refl refl)

module _ (divide : ℤ → ℤ → ℤ) (r : RiskRequest) where
  equity_clear :
      IsWithinLimits divide r
      → (o : Option ℤ) → r.equity ≡ o
      → check_equity divide r o ≡ returned tt
  unfolding check_equity
  equity_clear w none e = refl
  equity_clear w (some equity) e =
      rw
        (loss_clear r.daily_loss_limit r.daily_equity_anchor equity
          (λ limit anchor l a. w.loss_below equity limit anchor e l a))
        (rw (
          drawdown_clear divide r.max_drawdown_percent r.peak_equity equity
            (λ limit peak l p positive. w.drawdown_below equity limit peak e l p positive)))

  tests_clear :
      IsWithinLimits divide r
      → ((not (is_empty r.allowed_symbols) && not (matches_symbol_list r.symbol r.allowed_symbols))
          ≡ false)
        × ((is_none r.equity && (is_some r.daily_loss_limit || is_some r.max_drawdown_percent))
            ≡ false)
  tests_clear w = (ground (arith, w.allowed), ground (arith, w.equity_known))

  -- The risk check passes exactly when every limit is respected: the lot for one trade, the total
  -- exposure, a free position, the symbol lists, and, where equity is known, the daily loss and the
  -- drawdown; unknown equity passes only without limits on equity.
  pub ensure_account_risk_iff :
      (ensure_account_risk_within_limits divide r ≡ returned tt) ↔ IsWithinLimits divide r
  unfolding ensure_account_risk_within_limits
  ensure_account_risk_iff = (
    (λ h. record {
      per_trade = ground arith;
      total = ground arith;
      room = ground arith;
      allowed = λ k. ground arith;
      not_blocked = ground arith;
      equity_known = λ k. ground arith;
      loss_below = λ equity limit anchor e l a.
          unfold check_equity daily_loss_hit drawdown_hit in ground arith;
      drawdown_below = λ equity limit peak e l a pk.
          unfold check_equity daily_loss_hit drawdown_hit in ground arith;
    }),
    (λ w. ground (arith, tests_clear w, equity_clear w r.equity refl)),
  )
