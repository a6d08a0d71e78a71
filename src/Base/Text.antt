-- ===== src/Base/Text.antt =====
-- Text as a list of character codes. The texts of the program that are taken apart (symbols,
-- directions, identifiers) are ASCII, and so is the upper case here.
use Prim.Native.Nat.{ℕ, ◌+◌, ◌-◌, ◌≤◌}
use Prim.Native.Char.{code}
use Prim.Native.String.{String}
use mathlib.Core.Path.{◌≡◌, refl, ap}
use mathlib.Core.Logic.{◌↔◌}
use mathlib.Core.Bool.{Bool, true, false, not, ◌&&◌, ◌||◌}
use mathlib.Core.List.{List, [], ◌∷◌, map, reverse}
use native.Mathlib.Omega.{arith}
use signalsync_be.Base.Tests.{leb, ◌==◌, if◌then◌else◌}
use signalsync_be.Base.Lists.{any, select, All, All-select, length}

abbrev pub Text : Type 0
Text = List ℕ

-- A literal.
abbrev pub codes : String → Text
codes String.[] = []
codes (String.◌∷◌ c s) = code c ∷ codes s

abbrev pub text_eq : Text → Text → Bool
text_eq [] [] = true
text_eq [] (_ ∷ _) = false
text_eq (_ ∷ _) [] = false
text_eq (a ∷ s) (b ∷ t) = a == b && text_eq s t

-- `text.startswith(prefix)`
abbrev pub starts_with : Text → Text → Bool
starts_with text [] = true
starts_with [] (_ ∷ _) = false
starts_with (a ∷ s) (b ∷ t) = a == b && starts_with s t

abbrev pub is_digit : ℕ → Bool
is_digit c = leb 48 c && leb c 57

abbrev pub is_upper : ℕ → Bool
is_upper c = leb 65 c && leb c 90

abbrev pub is_lower : ℕ → Bool
is_lower c = leb 97 c && leb c 122

unfoldable pub to_upper : ℕ → ℕ
to_upper c = if is_lower c then c - 32 else c

-- `value.upper()`
abbrev pub upper : Text → Text
upper s = map to_upper s

-- `[A-Z0-9]`
unfoldable pub is_symbol_char : ℕ → Bool
is_symbol_char c = is_upper c || is_digit c

-- White space, as `strip` removes it.
unfoldable pub is_space : ℕ → Bool
is_space c = c == 32 || (leb 9 c && leb c 13) || (leb 28 c && leb c 31)

-- `value.strip()` is not empty.
unfoldable pub has_content : Text → Bool
unfolding is_space
has_content s = any (λ c. not (is_space c)) s

-- `re.sub(r"[^A-Z0-9]", "", value.upper())`
unfoldable pub symbol_chars : Text → Text
symbol_chars s = select is_symbol_char (upper s)

pub text_eq_iff : (s t : Text) → (text_eq s t ≡ true) ↔ (s ≡ t)
text_eq_iff [] [] = ((λ h. refl), (λ h. refl))
text_eq_iff [] (b ∷ t) = ((λ h. cc), (λ h. cc))
text_eq_iff (a ∷ s) [] = ((λ h. cc), (λ h. cc))
text_eq_iff (a ∷ s) (b ∷ t) =
    let ih = text_eq_iff s t in ((λ h. ground (arith, ih.0)), (λ h. ground (arith, ih.1)))

pub starts_with-length : (s t : Text) → starts_with s t ≡ true → length t ≤ length s
starts_with-length s [] h = omega arith
starts_with-length [] (b ∷ t) h = cc
starts_with-length (a ∷ s) (b ∷ t) h = ground (arith, starts_with-length s t)

pub starts_with_self : (s : Text) → starts_with s s ≡ true
starts_with_self [] = refl
starts_with_self (a ∷ s) = ground (arith, starts_with_self s)

abbrev pub IsSymbolText : Text → Type 0
IsSymbolText s = All (λ c. is_symbol_char c ≡ true) s

pub symbol_chars-IsSymbolText : (s : Text) → IsSymbolText (symbol_chars s)
unfolding symbol_chars
symbol_chars-IsSymbolText s = All-select is_symbol_char (upper s)

to_upper-of_symbol : (c : ℕ) → is_symbol_char c ≡ true → to_upper c ≡ c
unfolding is_symbol_char to_upper
to_upper-of_symbol c h = ground arith

pub symbol_chars-of_symbol : (s : Text) → IsSymbolText s → symbol_chars s ≡ s
unfolding symbol_chars
symbol_chars-of_symbol [] h = refl
symbol_chars-of_symbol (c ∷ s) h =
    rw (to_upper-of_symbol c h.0) (rw h.0 (ap (λ t. c ∷ t) (symbol_chars-of_symbol s h.1)))

unfoldable pub to_lower : ℕ → ℕ
to_lower c = if is_upper c then c + 32 else c

-- `value.lower()`
abbrev pub lower : Text → Text
lower s = map to_lower s

-- `value.lstrip()`, and `value.strip()` by way of the reversed text.
unfoldable pub lstrip : Text → Text
lstrip [] = []
lstrip (c ∷ s) = let rest = lstrip s in if is_space c then rest else c ∷ s

unfoldable pub strip : Text → Text
unfolding lstrip
strip s = reverse (lstrip (reverse (lstrip s)))
