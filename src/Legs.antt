-- ===== src/Legs.antt =====
-- How an opening signal becomes orders: `build_tp_legs` of
-- src/app/domains/copy_trading/engine.py and the volume and leg functions of
-- src/app/domains/copy_trading/execution.py.
-- Lots are whole numbers of a common small unit, and so are prices, which may be negative here.
pub mod Targets
pub mod Volume
mod Examples
use signalsync_be.Base.{
  ℕ, zero, suc, ◌*◌, max, Bool, true, false, ◌&&◌, ◌||◌, Option, none, some, List, [], ◌∷◌, map,
  ltb, if◌then◌else◌, length,
}
use signalsync_be.Base.Int.{ℤ, pos, ltb_ℤ}
use signalsync_be.Engine.{SignalAction, open_market, place_pending, additional_tp}

-- The words of `take_profit_mode` and `lot_distribution` that the code tells apart.
pub data TakeProfitMode : Type 0 where
  all lowest highest : TakeProfitMode

pub data LotDistribution : Type 0 where
  split_total fixed_each : LotDistribution

pub record TakeProfitLeg : Type 0 where
  pub take_profit : ℤ
  pub lot : ℕ

-- Python's `min` and `max` of a list that is not empty: the first of the least, or of the greatest.
pub lesser : ℤ → ℤ → ℤ
lesser x best = if ltb_ℤ x best then x else best

pub greater : ℤ → ℤ → ℤ
greater x best = if ltb_ℤ best x then x else best

pub least : ℤ → List ℤ → ℤ
least best [] = best
least best (x ∷ xs) = least (lesser x best) xs

pub greatest : ℤ → List ℤ → ℤ
greatest best [] = best
greatest best (x ∷ xs) = greatest (greater x best) xs

abbrev pub selected : TakeProfitMode → ℤ → List ℤ → List ℤ
selected all t ts = t ∷ ts
selected lowest t ts = least t ts ∷ []
selected highest t ts = greatest t ts ∷ []

abbrev pub splits : LotDistribution → Bool
splits split_total = true
splits fixed_each = false

-- `divide a n` is `a / Decimal(n)`, which the decimal context rounds.
module _ (divide : ℕ → ℕ → ℕ) where
  pub leg_lot : ℕ → LotDistribution → ℕ → ℕ
  leg_lot fixed_lot distribution count =
      if splits distribution && ltb 1 count then divide fixed_lot count else fixed_lot

  unfoldable pub build_tp_legs : ℕ → List ℤ → TakeProfitMode → LotDistribution → List TakeProfitLeg
  build_tp_legs fixed_lot [] mode distribution = []
  build_tp_legs fixed_lot (t ∷ ts) mode distribution =
      let chosen = selected mode t ts in
      let lot = leg_lot fixed_lot distribution (length chosen) in
      map (λ tp. record { take_profit = tp; lot = lot }) chosen

-- `OPENING_ACTIONS`
abbrev pub is_opening : SignalAction → Bool
is_opening open_market = true
is_opening place_pending = true
is_opening additional_tp = true
is_opening _ = false

abbrev selected_count : TakeProfitMode → ℕ → ℕ
selected_count all n = max 1 n
selected_count lowest n = 1
selected_count highest n = 1

unfoldable pub calculate_signal_volume : ℕ → ℕ → TakeProfitMode → LotDistribution → ℕ
calculate_signal_volume fixed_lot count mode split_total = fixed_lot
calculate_signal_volume fixed_lot count mode fixed_each = fixed_lot * selected_count mode count

unfoldable pub signal_volume_for_action :
    SignalAction → ℕ → ℕ → TakeProfitMode → LotDistribution → ℕ
unfolding calculate_signal_volume
signal_volume_for_action action fixed_lot count mode distribution =
    if is_opening action then calculate_signal_volume fixed_lot count mode distribution else 0

-- `legs or [None]`
abbrev or_none : List TakeProfitLeg → List (Option TakeProfitLeg)
or_none [] = none ∷ []
or_none (leg ∷ legs) = map some (leg ∷ legs)

module _ (divide : ℕ → ℕ → ℕ) where
  unfoldable pub intent_legs_for_action :
      SignalAction → ℕ → List ℤ → TakeProfitMode → LotDistribution → List (Option TakeProfitLeg)
  unfolding build_tp_legs
  intent_legs_for_action action fixed_lot take_profits mode distribution =
      if is_opening action
      then or_none (build_tp_legs divide fixed_lot take_profits mode distribution)
      else none ∷ []

-- `leg.lot if leg else route.fixed_lot`, the volume of an intent in workers.py
unfoldable pub intent_volume : ℕ → Option TakeProfitLeg → ℕ
intent_volume fixed_lot none = fixed_lot
intent_volume fixed_lot (some leg) = leg.lot
