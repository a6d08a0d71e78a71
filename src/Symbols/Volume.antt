-- ===== src/Symbols/Volume.antt =====
-- The volume that is sent to the broker (`normalize_volume` of
-- src/app/domains/copy_trading/symbols.py).
use native.Mathlib.Nat.{div-add-mod', mod-lt}
use signalsync_be.Base.{
  ℕ, ◌+◌, ◌*◌, ◌/◌, ◌≤◌, ◌<◌, min, max, ◌≡◌, ◌⊎◌, inl, inr, arith, ◌==◌, false,
}
use signalsync_be.Base.Python.{returned}
use signalsync_be.Symbols.{BrokerSymbol, normalize_volume}

pub floor_bounds : (b step : ℕ) → 0 < step → (b / step * step ≤ b) × (b < b / step * step + step)
floor_bounds b step h =
    let e = div-add-mod' b step in (omega (arith, e), omega (arith, e, mod-lt b h))

not_zero : (n : ℕ) → 0 < n → (n == 0) ≡ false
not_zero n h = ground arith

max-cases : (m x : ℕ) → (max m x ≡ m) ⊎ (max m x ≡ x)
max-cases m x = grind arith

-- With a step and consistent bounds the result lies within the broker's bounds, never exceeds the
-- larger of the requested volume and the minimum, falls short of a requested volume up to the
-- maximum by less than one step, and is a whole number of steps or the minimum.
pub normalize_volume-bounds :
    (volume : ℕ) (symbol : BrokerSymbol)
    → 0 < symbol.volume_step
    → symbol.min_volume ≤ symbol.max_volume
    → (n : ℕ) × (normalize_volume volume symbol ≡ returned n)
      × (symbol.min_volume ≤ n)
      × (n ≤ symbol.max_volume)
      × (n ≤ max volume symbol.min_volume)
      × (volume ≤ symbol.max_volume → volume < n + symbol.volume_step)
      × ((n ≡ symbol.min_volume) ⊎ ((k : ℕ) × (n ≡ k * symbol.volume_step)))
unfolding normalize_volume
normalize_volume-bounds volume symbol step bounds =
    let b = min (max volume symbol.min_volume) symbol.max_volume in
    let q = b / symbol.volume_step in
    let (low, high) = floor_bounds b symbol.volume_step step in
    (
      max symbol.min_volume (min (q * symbol.volume_step) symbol.max_volume),
      rw (not_zero symbol.volume_step step),
      omega arith,
      omega arith,
      omega (arith, low),
      (λ h. omega (arith, low, high)),
      elim (max-cases symbol.min_volume (min (q * symbol.volume_step) symbol.max_volume)) [
        | inl e ↦ inl e
        | inr e ↦ inr (q, omega (arith, e, low))
      ],
    )
