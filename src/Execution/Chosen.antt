-- ===== src/Execution/Chosen.antt =====
-- The broker symbol and the copied trades that one delivery of an intent chooses from:
-- `_resolve_broker_symbol` and the queries of `execution_handler` in
-- src/app/domains/copy_trading/metaapi_execution.py. What the resolution saves is an answer to the
-- deliveries after it.
use signalsync_be.Base.{Bool, true, false, Option, none, some, List, [], ◌∷◌, if◌then◌else◌, select}
use signalsync_be.Base.Python.{Outcome, returned, raised}
use signalsync_be.Base.Text.{Text, text_eq}
use signalsync_be.Symbols.{BrokerSymbol, SymbolError, resolve_symbol}
use signalsync_be.Execution.{Lifecycle, open_trade, pending, CopiedTrade}

-- The saved broker symbol of a signal symbol, and whether the catalog of the broker is unchanged since.
pub record SymbolMapping : Type 0 where
  pub broker_symbol : Text
  pub is_current : Bool

-- The last symbol of a name, as in a dictionary of the symbols by name.
abbrev pub named : Text → List BrokerSymbol → Option BrokerSymbol
named name [] = none
named name (symbol ∷ symbols) = elim (named name symbols) [
  | some later ↦ some later
  | none ↦ if text_eq symbol.name name then some symbol else none
]

abbrev pub mapped : Option SymbolMapping → List BrokerSymbol → Option BrokerSymbol
mapped none symbols = none
mapped (some mapping) symbols =
    let found = named mapping.broker_symbol symbols in if mapping.is_current then found else none

-- `_resolve_broker_symbol`: the saved symbol if the catalog is unchanged and has it, or the resolved.
abbrev pub resolve_broker_symbol :
    Option SymbolMapping → Text → List BrokerSymbol → Outcome SymbolError (Option BrokerSymbol)
resolve_broker_symbol saved requested symbols = elim (mapped saved symbols) [
  | some symbol ↦ returned (some symbol)
  | none ↦ elim (resolve_symbol requested symbols) [
    | returned symbol ↦ returned (some symbol)
    | raised e ↦ raised e
  ]
]

-- the symbol of the payload, if it is set and not empty
abbrev pub selected_symbol :
    Option SymbolMapping
    → Option Text
    → List BrokerSymbol
    → Outcome SymbolError (Option BrokerSymbol)
selected_symbol saved none symbols = returned none
selected_symbol saved (some []) symbols = returned none
selected_symbol saved (some (c ∷ cs)) symbols = resolve_broker_symbol saved (c ∷ cs) symbols

abbrev pub is_live : Lifecycle → Bool
is_live open_trade = true
is_live pending = true
is_live _ = false

-- `lifecycle_state.in_(["open", "pending"])`
abbrev pub live_trades : List CopiedTrade → List CopiedTrade
live_trades trades = select (λ trade. is_live trade.lifecycle_state) trades
