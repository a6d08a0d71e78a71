-- ===== src/Legs/Examples.antt =====
-- Examples for legs (src/app/domains/copy_trading/engine.py).
use signalsync_be.Base.{ℕ, ◌/◌, ◌≡◌, refl, suc, zero, [], ◌∷◌, List}
use signalsync_be.Base.Int.{ℤ, pos}
use signalsync_be.Legs.{lowest, split_total, least, lesser, build_tp_legs}
use signalsync_be.Legs.Targets.{targets}

abbrev three_targets : List ℤ
three_targets = pos 2375 ∷ pos 2350 ∷ pos 2400 ∷ []

-- Division that rounds down.
abbrev floor_division : ℕ → ℕ → ℕ
floor_division a zero = 0
floor_division a (suc n) = a / suc n

lowest_target :
    targets (build_tp_legs floor_division 10 three_targets lowest split_total) ≡ pos 2350 ∷ []
unfolding build_tp_legs least lesser
lowest_target = refl
