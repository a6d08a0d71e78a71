-- ===== src/Engine/Contract.antt =====
-- The contract of the signal engine: which signals may be executed, stated without the tests of
-- `validate_signal` (src/app/domains/copy_trading/engine.py).
use signalsync_be.Base.{◌≡◌, ◌⊎◌, true, Option, none, some, List, [], ◌∷◌, All}
use signalsync_be.Base.Int.{ℤ, pos, ◌<ℤ◌, ◌≤ℤ◌}
use signalsync_be.Base.Python.{Outcome, returned, raised, Decimal, finite, infinite, nan}
use signalsync_be.Engine.{
  SignalAction, open_market, place_pending, modify_sl_tp, break_even, partial_close, full_close,
  cancel_pending, additional_tp, status_only, Direction, buy, sell, ParsedSignal, MinimumFields,
  RouteExecutionPolicy, ValidationResult, KeyError, option_list, direction_symbol,
  direction_symbol_entry, direction_symbol_sl, direction_symbol_tp, direction_symbol_sl_tp,
}

abbrev pub IsPositive : Decimal → Type 0
IsPositive (finite z) = pos 0 <ℤ z
IsPositive (infinite _) = ⊥
IsPositive nan = ⊥

-- a < b, between finite values
abbrev pub Below : Decimal → Decimal → Type 0
Below (finite a) (finite b) = a <ℤ b
Below _ _ = ⊥

abbrev pub IsFraction : ℤ → Option Decimal → Type 0
IsFraction one none = ⊥
IsFraction one (some (finite z)) = (pos 0 <ℤ z) × (z ≤ℤ one)
IsFraction one (some (infinite _)) = ⊥
IsFraction one (some nan) = ⊥

abbrev pub IsSet? : {A : Type 0} → Option A → Type 0
IsSet? none = ⊥
IsSet? (some _) = Unit

abbrev pub IsFilled : {A : Type 0} → List A → Type 0
IsFilled [] = ⊥
IsFilled (_ ∷ _) = Unit

-- Each target lies beyond the stop loss, on the side of the trade.
abbrev pub OnSide : Option Direction → Decimal → List Decimal → Type 0
OnSide (some buy) sl tps = All (λ target. Below sl target) tps
OnSide (some sell) sl tps = All (λ target. Below target sl) tps
OnSide _ sl tps = Unit

abbrev pub StopOnSide : Option Decimal → Option Direction → List Decimal → Type 0
StopOnSide none d tps = Unit
StopOnSide (some sl) d tps = OnSide d sl tps

abbrev pub IsRange : Option Decimal → Option Decimal → Type 0
IsRange (some (finite low)) (some (finite high)) = low ≤ℤ high
IsRange _ _ = Unit

-- What the route asks of an opening signal besides its side.
abbrev pub HasDetails : ParsedSignal → MinimumFields → Type 0
HasDetails s direction_symbol = IsSet? s.symbol
HasDetails s direction_symbol_entry = IsSet? s.symbol × IsSet? s.entry
HasDetails s direction_symbol_sl = IsSet? s.symbol × IsSet? s.stop_loss
HasDetails s direction_symbol_tp = IsSet? s.symbol × IsFilled s.take_profits
HasDetails s direction_symbol_sl_tp = IsSet? s.symbol × IsSet? s.stop_loss × IsFilled s.take_profits
HasDetails s MinimumFields.other = ⊥

-- What each action needs.
abbrev pub ActionReady : ℤ → SignalAction → ParsedSignal → RouteExecutionPolicy → Type 0
ActionReady one open_market s p =
    (s.age_seconds ≤ℤ p.market_freshness_seconds)
    × ((s.direction ≡ some buy) ⊎ (s.direction ≡ some sell))
    × HasDetails s p.minimum_fields
ActionReady one place_pending s p =
    IsSet? s.entry
    × (p.pending_orders_enabled ≡ true)
    × ((s.direction ≡ some buy) ⊎ (s.direction ≡ some sell))
    × HasDetails s p.minimum_fields
ActionReady one modify_sl_tp s p = p.allow_sl_tp_updates ≡ true
ActionReady one break_even s p = p.allow_break_even ≡ true
ActionReady one partial_close s p = (p.allow_partial_close ≡ true) × IsFraction one s.close_fraction
ActionReady one full_close s p = p.allow_full_close ≡ true
ActionReady one cancel_pending s p = p.allow_pending_cancel ≡ true
ActionReady one additional_tp s p = (p.allow_additional_tp ≡ true) × IsFilled s.take_profits
ActionReady one status_only s p = ⊥

-- The contract of the engine: prices are positive and consistent, and the action is allowed and
-- complete.
pub record IsExecutable (one : ℤ) (s : ParsedSignal) (p : RouteExecutionPolicy) : Type 0 where
  pub entry_positive : All IsPositive (option_list s.entry)
  pub entry_high_positive : All IsPositive (option_list s.entry_high)
  pub stop_positive : All IsPositive (option_list s.stop_loss)
  pub targets_positive : All IsPositive s.take_profits
  pub stop_on_side : StopOnSide s.stop_loss s.direction s.take_profits
  pub range : IsRange s.entry s.entry_high
  pub ready : ActionReady one s.action s p

abbrev pub IsAccepted : Outcome KeyError ValidationResult → Type 0
IsAccepted (returned r) = r.accepted ≡ true
IsAccepted (raised _) = ⊥
