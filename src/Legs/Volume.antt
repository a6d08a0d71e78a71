-- ===== src/Legs/Volume.antt =====
-- The volume that is checked against the limits and the volumes of the intents
-- (src/app/domains/copy_trading/execution.py, engine.py).
use signalsync_be.Base.{
  ℕ, ◌+◌, ◌*◌, ◌≡◌, ap, ◌∙◌, Option, some, List, [], ◌∷◌, map, arith, length, true,
}
use signalsync_be.Base.Int.{ℤ}
use signalsync_be.Engine.{SignalAction}
use signalsync_be.Legs.{
  TakeProfitMode, all, lowest, highest, fixed_each, TakeProfitLeg, leg_lot, is_opening,
  signal_volume_for_action, intent_legs_for_action, intent_volume,
}

-- The sum of the volumes of the intents.
abbrev traded : ℕ → List (Option TakeProfitLeg) → ℕ
traded fixed_lot [] = 0
traded fixed_lot (leg ∷ legs) = intent_volume fixed_lot leg + traded fixed_lot legs

abbrev with_lot : ℕ → ℤ → TakeProfitLeg
with_lot lot tp = record { take_profit = tp; lot = lot }

traded-map :
    (fixed_lot lot : ℕ) (xs : List ℤ)
    → traded fixed_lot (map some (map (with_lot lot) xs)) ≡ lot * length xs
unfolding intent_volume
traded-map fixed_lot lot [] = omega arith
traded-map fixed_lot lot (x ∷ xs) = omega (arith, traded-map fixed_lot lot xs)

module _ (divide : ℕ → ℕ → ℕ) (action : SignalAction) (fixed_lot : ℕ) where
  -- With a fixed lot for each target, the volume computed for an opening action is the sum of the
  -- volumes of its intents, before these are normalized for a broker.
  pub volume-fixed_each :
      (mode : TakeProfitMode) (take_profits : List ℤ)
      → is_opening action ≡ true
      → traded fixed_lot
          (intent_legs_for_action divide action fixed_lot take_profits mode fixed_each)
        ≡ signal_volume_for_action action fixed_lot (length take_profits) mode fixed_each
  unfolding intent_legs_for_action signal_volume_for_action leg_lot intent_volume
  volume-fixed_each all [] h = rw h (omega arith)
  volume-fixed_each lowest [] h = rw h (omega arith)
  volume-fixed_each highest [] h = rw h (omega arith)
  volume-fixed_each all (t ∷ ts) h =
      rw h (traded-map fixed_lot fixed_lot (t ∷ ts) ∙ ap (λ k. fixed_lot * k) (omega arith))
  volume-fixed_each lowest (t ∷ ts) h = rw h (omega arith)
  volume-fixed_each highest (t ∷ ts) h = rw h (omega arith)
