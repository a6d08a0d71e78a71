-- ===== src/Symbols.antt =====
-- Broker symbols and volumes: src/app/domains/copy_trading/symbols.py.
-- Volumes are whole numbers of a common small unit; a quotient of two of them is floored exactly.
pub mod Names
pub mod Resolution
pub mod Volume
mod Examples
use signalsync_be.Base.{
  ℕ, suc, ◌+◌, ◌-◌, ◌*◌, ◌/◌, min, max, Bool, true, false, not, ◌&&◌, List, [], ◌∷◌, leb, ltb, ◌==◌,
  if◌then◌else◌, length, select,
}
use signalsync_be.Base.Python.{Outcome, returned, raised}
use signalsync_be.Base.Text.{Text, codes, text_eq, starts_with, symbol_chars}

-- `trade_mode: int | str`; `word` is a string that the code does not name.
pub data TradeMode : Type 0 where
  number : ℕ → TradeMode
  disabled_word closeonly_word word : TradeMode

-- The fields of `BrokerSymbol` that the functions below read.
pub record BrokerSymbol : Type 0 where
  pub name : Text
  pub trade_mode : TradeMode
  pub min_volume : ℕ
  pub max_volume : ℕ
  pub volume_step : ℕ

pub data DivisionError : Type 0 where
  division_by_zero : DivisionError

unfoldable pub normalize_volume : ℕ → BrokerSymbol → Outcome DivisionError ℕ
normalize_volume volume symbol =
    let bounded = min (max volume symbol.min_volume) symbol.max_volume in
    let steps = bounded / symbol.volume_step in
    let normalized = steps * symbol.volume_step in
    if symbol.volume_step == 0
    then raised division_by_zero
    else returned (max symbol.min_volume (min normalized symbol.max_volume))

-- The table of aliases.
unfoldable pub canonical : Text → Text
canonical normalized =
    if text_eq normalized (codes "GOLD")
    then codes "XAUUSD"
    else if text_eq normalized (codes "SILVER")
    then codes "XAGUSD"
    else if text_eq normalized (codes "BTC")
    then codes "BTCUSD"
    else normalized

unfoldable pub normalize_symbol : Text → Text
normalize_symbol value = canonical (symbol_chars value)

-- `symbol.trade_mode not in disabled_modes`
unfoldable pub is_tradable : BrokerSymbol → Bool
is_tradable symbol = elim symbol.trade_mode [
  | number n ↦ not (n == 0) && not (n == 3)
  | disabled_word ↦ false
  | closeonly_word ↦ false
  | word ↦ true
]

pub data SymbolError : Type 0 where
  multiple_exact no_match ambiguous : SymbolError

abbrev pub name_length : BrokerSymbol → ℕ
name_length symbol = length (normalize_symbol symbol.name)

-- `min(len(normalize_symbol(symbol.name)) for symbol in matches)`
pub shortest : ℕ → List BrokerSymbol → ℕ
shortest best [] = best
shortest best (s ∷ rest) = shortest (min best (name_length s)) rest

abbrev pub matches_exactly : Text → BrokerSymbol → Bool
matches_exactly target symbol = text_eq (normalize_symbol symbol.name) target

abbrev pub matches_start : Text → BrokerSymbol → Bool
matches_start target symbol = starts_with (normalize_symbol symbol.name) target

-- the last test: one symbol has the shortest name
pub only : List BrokerSymbol → Outcome SymbolError BrokerSymbol
only (symbol ∷ []) = returned symbol
only _ = raised ambiguous

-- the search by prefix
pub closest : List BrokerSymbol → Outcome SymbolError BrokerSymbol
closest [] = raised no_match
closest (s ∷ rest) =
    let shortest_length = shortest (name_length s) rest in
    only (select (λ symbol. name_length symbol == shortest_length) (s ∷ rest))

-- the search by name, given the exact matches and the tradable symbols
unfoldable pub choose :
    Text → List BrokerSymbol → List BrokerSymbol → Outcome SymbolError BrokerSymbol
choose target (symbol ∷ []) tradable = returned symbol
choose target (symbol ∷ other ∷ rest) tradable = raised multiple_exact
choose target [] tradable = closest (select (matches_start target) tradable)

unfoldable pub resolve_symbol : Text → List BrokerSymbol → Outcome SymbolError BrokerSymbol
resolve_symbol requested symbols =
    let target = normalize_symbol requested in
    let tradable = select is_tradable symbols in
    choose target (select (matches_exactly target) tradable) tradable
