-- ===== src/Symbols/Names.antt =====
-- The normal form of a symbol (`normalize_symbol` of src/app/domains/copy_trading/symbols.py).
use signalsync_be.Base.{◌≡◌, arith}
use signalsync_be.Base.Text.{
  Text, symbol_chars, IsSymbolText, is_symbol_char, symbol_chars-IsSymbolText,
  symbol_chars-of_symbol,
}
use signalsync_be.Symbols.{canonical, normalize_symbol}

canonical-IsSymbolText : (s : Text) → IsSymbolText s → IsSymbolText (canonical s)
unfolding canonical is_symbol_char
canonical-IsSymbolText s h = ground arith

canonical-canonical : (s : Text) → canonical (canonical s) ≡ canonical s
unfolding canonical
canonical-canonical s = ground arith

-- A normalized symbol consists of capital letters and digits.
pub normalize_symbol-IsSymbolText : (value : Text) → IsSymbolText (normalize_symbol value)
unfolding normalize_symbol
normalize_symbol-IsSymbolText value = canonical-IsSymbolText _ (symbol_chars-IsSymbolText value)

-- A normalized symbol consists of capital letters and digits, and normalizing it again changes
-- nothing: aliases do not chain.
pub normalize_symbol-normal :
    (value : Text)
    → IsSymbolText (normalize_symbol value)
      × (normalize_symbol (normalize_symbol value) ≡ normalize_symbol value)
unfolding normalize_symbol
normalize_symbol-normal value =
    let fine = normalize_symbol-IsSymbolText value in
    (fine, rw (symbol_chars-of_symbol _ fine) (canonical-canonical (symbol_chars value)))
