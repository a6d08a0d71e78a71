-- ===== src/Symbols/Examples.antt =====
-- Examples for symbols and volumes (src/app/domains/copy_trading/symbols.py).
use signalsync_be.Base.{ℕ, ◌≡◌, refl, ◌≤◌, ◌<◌, ◌+◌, ◌*◌, ◌⊎◌, max, [], ◌∷◌, List, arith}
use signalsync_be.Base.Python.{returned}
use signalsync_be.Base.Text.{codes, symbol_chars, to_upper, is_symbol_char}
use signalsync_be.Symbols.{
  BrokerSymbol, number, closeonly_word, normalize_volume, normalize_symbol, canonical,
  resolve_symbol, is_tradable, choose, closest, only, shortest,
}
use signalsync_be.Symbols.Volume.{normalize_volume-bounds}
use signalsync_be.Symbols.Resolution.{IsResolution, resolve_symbol-IsResolution}

abbrev gold_m : BrokerSymbol
gold_m = record {
  name = codes "XAUUSDm";
  trade_mode = number 4;
  min_volume = 10;
  max_volume = 500;
  volume_step = 3;
}

abbrev gold_micro : BrokerSymbol
gold_micro = record gold_m { name = codes "XAUUSD.micro" }

abbrev gold_closed : BrokerSymbol
gold_closed = record gold_m { name = codes "XAUUSD"; trade_mode = closeonly_word }

abbrev listing : List BrokerSymbol
listing = gold_micro ∷ gold_closed ∷ gold_m ∷ []

normalize_volume-bounds_example :
    (n : ℕ) × (normalize_volume 50 gold_m ≡ returned n)
    × (10 ≤ n)
    × (n ≤ 500)
    × (n ≤ max 50 10)
    × (50 ≤ 500 → 50 < n + 3)
    × ((n ≡ 10) ⊎ ((k : ℕ) × (n ≡ k * 3)))
normalize_volume-bounds_example = normalize_volume-bounds 50 gold_m (omega arith) (omega arith)

gold_resolves : resolve_symbol (codes "gold") listing ≡ returned gold_m
unfolding resolve_symbol choose closest only shortest normalize_symbol canonical is_tradable
    symbol_chars is_symbol_char to_upper
gold_resolves = refl

resolve_symbol-IsResolution_example : IsResolution (codes "gold") listing gold_m
resolve_symbol-IsResolution_example =
    resolve_symbol-IsResolution (codes "gold") listing gold_m gold_resolves
