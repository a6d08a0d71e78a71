-- ===== src/Symbols/Resolution.antt =====
-- What `resolve_symbol` returns (src/app/domains/copy_trading/symbols.py).
use signalsync_be.Base.{
  ℕ, ◌≤◌, ◌≡◌, ◌⊎◌, inl, inr, Bool, true, List, [], ◌∷◌, arith, IsIn, IsIn-select, select, min,
  Bool-cases, ◌==◌,
}
use signalsync_be.Base.Python.{Outcome, returned}
use signalsync_be.Base.Text.{Text, text_eq_iff, starts_with, starts_with-length, starts_with_self}
use signalsync_be.Symbols.{
  BrokerSymbol, SymbolError, normalize_symbol, is_tradable, name_length, shortest, matches_exactly,
  matches_start, only, closest, choose, resolve_symbol,
}

-- The contract: a tradable symbol of the list whose name starts with the requested one, and no
-- tradable symbol with such a name is shorter.
pub record IsResolution (requested : Text) (symbols : List BrokerSymbol) (r : BrokerSymbol)
    : Type 0 where
  pub listed : IsIn r symbols
  pub tradable : is_tradable r ≡ true
  pub extends : starts_with (normalize_symbol r.name) (normalize_symbol requested) ≡ true
  pub is_shortest :
      (c : BrokerSymbol)
      → IsIn c symbols
      → is_tradable c ≡ true
      → starts_with (normalize_symbol c.name) (normalize_symbol requested) ≡ true
      → name_length r ≤ name_length c

IsIn-select_of :
    {A : Type 0} (test : A → Bool) (xs : List A) {a : A}
    → IsIn a xs
    → test a ≡ true
    → IsIn a (select test xs)
IsIn-select_of test [] h e = elim h [ ]
IsIn-select_of test (x ∷ xs) {a = a} (inl p) e = rw (rw p at e) (inl p)
IsIn-select_of test (x ∷ xs) (inr q) e = elim (Bool-cases (test x)) [
  | inl t ↦ rw t (inr (IsIn-select_of test xs q e))
  | inr t ↦ rw t (IsIn-select_of test xs q e)
]

shortest-le_best : (best : ℕ) (xs : List BrokerSymbol) → shortest best xs ≤ best
unfolding shortest
shortest-le_best best [] = omega arith
shortest-le_best best (x ∷ xs) = omega (arith, shortest-le_best (min best (name_length x)) xs)

shortest-le :
    (best : ℕ) (xs : List BrokerSymbol) (c : BrokerSymbol)
    → IsIn c xs
    → shortest best xs ≤ name_length c
unfolding shortest
shortest-le best [] c h = elim h [ ]
shortest-le best (x ∷ xs) c (inl p) =
    rw p (omega (arith, shortest-le_best (min best (name_length x)) xs))
shortest-le best (x ∷ xs) c (inr q) = shortest-le (min best (name_length x)) xs c q

returned-eq :
    (a b : BrokerSymbol)
    → ◌≡◌ {A = Outcome SymbolError BrokerSymbol} (returned a) (returned b)
    → b ≡ a
returned-eq a b h = cc

only-eq : (xs : List BrokerSymbol) (r : BrokerSymbol) → only xs ≡ returned r → IsIn r xs
unfolding only
only-eq (x ∷ []) r h = inl (returned-eq x r h)
only-eq [] r h = cc
only-eq (x ∷ y ∷ xs) r h = cc

closest_lem :
    (xs : List BrokerSymbol) (r : BrokerSymbol)
    → closest xs ≡ returned r
    → IsIn r xs × ((c : BrokerSymbol) → IsIn c xs → name_length r ≤ name_length c)
unfolding closest
closest_lem [] r h = cc
closest_lem (s ∷ rest) r h =
    let best = shortest (name_length s) rest in
    let (found, same) =
      IsIn-select (λ symbol. name_length symbol == best) (s ∷ rest) (only-eq _ r h) in
    let e : name_length r ≡ best = ground arith in (found, (λ c m. rw e (bound c m)))
  where
    bound : (c : BrokerSymbol) → IsIn c (s ∷ rest) → shortest (name_length s) rest ≤ name_length c
    bound c (inl p) = rw p (shortest-le_best (name_length s) rest)
    bound c (inr q) = shortest-le (name_length s) rest c q

choose_lem :
    (target : Text) (exact tradable : List BrokerSymbol) (r : BrokerSymbol)
    → choose target exact tradable ≡ returned r
    → IsIn r exact ⊎ (closest (select (matches_start target) tradable) ≡ returned r)
unfolding choose
choose_lem target [] tradable r h = inr h
choose_lem target (x ∷ []) tradable r h = inl (inl (returned-eq x r h))
choose_lem target (x ∷ y ∷ xs) tradable r h = cc

module _ (requested : Text) (symbols : List BrokerSymbol) (r : BrokerSymbol) where
  exact-IsResolution :
      IsIn r (select (matches_exactly (normalize_symbol requested)) (select is_tradable symbols))
      → IsResolution requested symbols r
  exact-IsResolution m =
      let target = normalize_symbol requested in
      let (m', same) = IsIn-select (matches_exactly target) (select is_tradable symbols) m in
      let (m'', on) = IsIn-select is_tradable symbols m' in
      let e = (text_eq_iff (normalize_symbol r.name) target).0 same in
      record {
        listed = m'';
        tradable = on;
        extends = rw e (starts_with_self target);
        is_shortest = λ c listed on' starts.
            rw e (starts_with-length (normalize_symbol c.name) target starts);
      }

  closest-IsResolution :
      closest (select (matches_start (normalize_symbol requested)) (select is_tradable symbols))
        ≡ returned r
      → IsResolution requested symbols r
  closest-IsResolution h =
      let target = normalize_symbol requested in
      let (m, least) = closest_lem _ r h in
      let (m', starts) = IsIn-select (matches_start target) (select is_tradable symbols) m in
      let (m'', on) = IsIn-select is_tradable symbols m' in
      record {
        listed = m'';
        tradable = on;
        extends = starts;
        is_shortest = λ c listed on' starts'. least c (
            IsIn-select_of (matches_start target) (select is_tradable symbols)
              (IsIn-select_of is_tradable symbols listed on') starts');
      }

  -- Whatever `resolve_symbol` returns meets the contract: a tradable symbol of the broker's list
  -- whose name starts with the requested one, and no other such symbol has a shorter name.
  pub resolve_symbol-IsResolution :
      resolve_symbol requested symbols ≡ returned r → IsResolution requested symbols r
  unfolding resolve_symbol
  resolve_symbol-IsResolution h =
      elim (choose_lem (normalize_symbol requested) _ (select is_tradable symbols) r h) [
        | inl m ↦ exact-IsResolution m
        | inr e ↦ closest-IsResolution e
      ]
