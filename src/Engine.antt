-- ===== src/Engine.antt =====
-- The signal engine: copy_trading/engine.py (src/app/domains/copy_trading/engine.py).
-- A string field that the code compares with fixed words is an enumeration of those words and
-- `other`; `confidence` and the ages, floats that are only compared, are whole numbers of a common
-- small unit.
pub mod Contract
pub mod Acceptance
mod Examples
use signalsync_be.Base.{
  ℕ, Bool, true, false, not, ◌&&◌, ◌||◌, Option, none, some, List, [], ◌∷◌, ◌++◌, ltb,
  if◌then◌else◌, any, is_empty, is_none,
}
use signalsync_be.Base.Int.{ℤ, pos, ltb_ℤ}
use signalsync_be.Base.Python.{Outcome, returned, raised, Decimal, finite, is_finite, decimal_le}
use signalsync_be.Base.Text.{Text}

-- `SignalAction`
pub data SignalAction : Type 0 where
  open_market place_pending modify_sl_tp break_even partial_close full_close : SignalAction
  cancel_pending additional_tp status_only : SignalAction

-- The values of `direction` that the code tells apart.
pub data Direction : Type 0 where
  buy sell other : Direction

pub record ParsedSignal : Type 0 where
  pub action : SignalAction
  pub symbol : Option Text
  pub direction : Option Direction
  pub entry : Option Decimal
  pub entry_high : Option Decimal
  pub stop_loss : Option Decimal
  pub take_profits : List Decimal
  pub close_fraction : Option Decimal
  pub age_seconds : ℤ
  pub confidence : ℕ

-- The keys of the table of required fields; `other` is any other string, for which the lookup
-- raises `KeyError`.
pub data MinimumFields : Type 0 where
  direction_symbol direction_symbol_entry direction_symbol_sl : MinimumFields
  direction_symbol_tp direction_symbol_sl_tp other : MinimumFields

pub record RouteExecutionPolicy : Type 0 where
  pub minimum_fields : MinimumFields
  pub confidence_threshold : ℕ
  pub market_freshness_seconds : ℤ
  pub pending_orders_enabled : Bool
  pub allow_sl_tp_updates : Bool
  pub allow_break_even : Bool
  pub allow_partial_close : Bool
  pub allow_full_close : Bool
  pub allow_pending_cancel : Bool
  pub allow_additional_tp : Bool

-- The reasons and the advisory, one constructor for each message.
pub data Reason : Type 0 where
  status_update waiting_for_entry waiting_for_target prices_not_positive : Reason
  stop_and_target_conflict entry_range_inverted fraction_missing fraction_out_of_range : Reason
  signal_too_old pending_disabled action_disabled waiting_for_direction : Reason
  waiting_for_details : Reason

pub data Advisory : Type 0 where
  low_confidence : Advisory

pub record ValidationResult : Type 0 where
  pub accepted : Bool
  pub reason : Option Reason
  pub advisory : Option Advisory

pub data KeyError : Type 0 where
  key_error : KeyError

-- `signal.action == ...`, for the actions that `validate_signal` asks about
abbrev pub is_status_only : SignalAction → Bool
is_status_only status_only = true
is_status_only _ = false

abbrev pub is_place_pending : SignalAction → Bool
is_place_pending place_pending = true
is_place_pending _ = false

abbrev pub is_open_market : SignalAction → Bool
is_open_market open_market = true
is_open_market _ = false

abbrev pub is_additional_tp : SignalAction → Bool
is_additional_tp additional_tp = true
is_additional_tp _ = false

abbrev pub is_partial_close : SignalAction → Bool
is_partial_close partial_close = true
is_partial_close _ = false

abbrev pub option_list : {A : Type 0} → Option A → List A
option_list none = []
option_list (some a) = a ∷ []

abbrev pub zero_decimal : Decimal
zero_decimal = finite (pos 0)

-- `prices`: the entry bounds, the stop loss and the targets that are not None
pub prices : ParsedSignal → List Decimal
prices s =
    option_list s.entry ++ (option_list s.entry_high ++ (option_list s.stop_loss ++ s.take_profits))

-- `not value.is_finite() or value <= Decimal("0")`
abbrev pub bad_price : Decimal → Bool
bad_price d = not (is_finite d) || decimal_le d zero_decimal

-- `prices_conflict`, for a stop loss that is set
abbrev pub conflicts : Option Direction → Decimal → List Decimal → Bool
conflicts (some buy) sl tps = any (λ target. decimal_le target sl) tps
conflicts (some sell) sl tps = any (λ target. decimal_le sl target) tps
conflicts _ sl tps = false

pub conflict_of : Option Decimal → Option Direction → List Decimal → Bool
conflict_of none d tps = false
conflict_of (some sl) d tps = not (is_empty tps) && conflicts d sl tps

pub prices_conflict : ParsedSignal → Bool
unfolding conflict_of
prices_conflict s = conflict_of s.stop_loss s.direction s.take_profits

-- the entry range is given and its minimum exceeds its maximum
abbrev pub range_inverted : Option Decimal → Option Decimal → Bool
range_inverted (some low) (some high) = not (decimal_le low high)
range_inverted _ _ = false

pub entry_range_bad : ParsedSignal → Bool
entry_range_bad s = range_inverted s.entry s.entry_high

-- `close_fraction is None or not close_fraction.is_finite()`
pub fraction_unset : Option Decimal → Bool
fraction_unset none = true
fraction_unset (some d) = not (is_finite d)

-- The least unit count of the fraction 1 is the scale of the decimals: `one` is `Decimal("1")`.
module _ (one : ℤ) where
  -- `not (Decimal("0") < close_fraction <= Decimal("1"))`
  pub fraction_out : Option Decimal → Bool
  fraction_out none = true
  fraction_out (some d) = decimal_le d zero_decimal || not (decimal_le d (finite one))

-- the table of permissions, True for an action that it does not hold
pub permission : SignalAction → RouteExecutionPolicy → Bool
permission modify_sl_tp p = p.allow_sl_tp_updates
permission break_even p = p.allow_break_even
permission partial_close p = p.allow_partial_close
permission full_close p = p.allow_full_close
permission cancel_pending p = p.allow_pending_cancel
permission additional_tp p = p.allow_additional_tp
permission _ p = true

-- `signal.direction not in {"buy", "sell"}`
abbrev pub no_side : Option Direction → Bool
no_side (some buy) = false
no_side (some sell) = false
no_side _ = true

-- `any(value is None or value == [] for value in required)`, where the table has the key
pub missing_required : ParsedSignal → MinimumFields → Option Bool
missing_required s direction_symbol = some (is_none s.direction || is_none s.symbol)
missing_required s direction_symbol_entry =
    some (is_none s.direction || (is_none s.symbol || is_none s.entry))
missing_required s direction_symbol_sl =
    some (is_none s.direction || (is_none s.symbol || is_none s.stop_loss))
missing_required s direction_symbol_tp =
    some (is_none s.direction || (is_none s.symbol || is_empty s.take_profits))
missing_required s direction_symbol_sl_tp =
    some (
      is_none s.direction || (is_none s.symbol || (is_none s.stop_loss || is_empty s.take_profits)))
missing_required s other = none

pub advise : ParsedSignal → RouteExecutionPolicy → Option Advisory
advise s p = if ltb s.confidence p.confidence_threshold then some low_confidence else none

abbrev pub reject : Reason → Option Advisory → Outcome KeyError ValidationResult
reject r a = returned (record { accepted = false; reason = some r; advisory = a })

abbrev pub accept : Option Advisory → Outcome KeyError ValidationResult
accept a = returned (record { accepted = true; reason = none; advisory = a })

-- the last test of `validate_signal`, on an opening order that has a side
abbrev pub check_required : Option Bool → Option Advisory → Outcome KeyError ValidationResult
check_required none a = raised key_error
check_required (some true) a = reject waiting_for_details a
check_required (some false) a = accept a

abbrev pub opens : SignalAction → Bool
opens action = is_open_market action || is_place_pending action

module _ (one : ℤ) where
  pub validate_signal : ParsedSignal → RouteExecutionPolicy → Outcome KeyError ValidationResult
  validate_signal s p =
      let advisory = advise s p in
      if is_status_only s.action
      then reject status_update advisory
      else if is_place_pending s.action && is_none s.entry
      then reject waiting_for_entry advisory
      else if is_additional_tp s.action && is_empty s.take_profits
      then reject waiting_for_target advisory
      else if any bad_price (prices s)
      then reject prices_not_positive advisory
      else if prices_conflict s
      then reject stop_and_target_conflict advisory
      else if entry_range_bad s
      then reject entry_range_inverted advisory
      else if is_partial_close s.action && fraction_unset s.close_fraction
      then reject fraction_missing advisory
      else if is_partial_close s.action && fraction_out one s.close_fraction
      then reject fraction_out_of_range advisory
      else if is_open_market s.action && ltb_ℤ p.market_freshness_seconds s.age_seconds
      then reject signal_too_old advisory
      else if is_place_pending s.action && not p.pending_orders_enabled
      then reject pending_disabled advisory
      else if not (permission s.action p)
      then reject action_disabled advisory
      else if not (opens s.action)
      then accept advisory
      else if no_side s.direction
      then reject waiting_for_direction advisory
      else check_required (missing_required s p.minimum_fields) advisory
