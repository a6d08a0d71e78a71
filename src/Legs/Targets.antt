-- ===== src/Legs/Targets.antt =====
-- Which targets the legs carry (`build_tp_legs` of src/app/domains/copy_trading/engine.py).
use signalsync_be.Base.{◌≡◌, List, [], ◌∷◌, map, All, IsIn}
use signalsync_be.Base.Int.{ℤ, ◌≤ℤ◌}
use signalsync_be.Legs.{TakeProfitMode, all, lowest, highest, TakeProfitLeg}

abbrev pub targets : List TakeProfitLeg → List ℤ
targets legs = map (λ (leg : TakeProfitLeg). leg.take_profit) legs

-- `b` is an element, and no element is below it.
abbrev pub IsLeast : ℤ → List ℤ → Type 0
IsLeast b xs = IsIn b xs × All (λ x. b ≤ℤ x) xs

abbrev pub IsGreatest : ℤ → List ℤ → Type 0
IsGreatest b xs = IsIn b xs × All (λ x. x ≤ℤ b) xs

-- What each mode asks of the targets that are traded.
abbrev pub Chosen : TakeProfitMode → List ℤ → List ℤ → Type 0
Chosen all given traded = traded ≡ given
Chosen lowest given traded = (b : ℤ) × (traded ≡ b ∷ []) × IsLeast b given
Chosen highest given traded = (b : ℤ) × (traded ≡ b ∷ []) × IsGreatest b given
