-- ===== src/Engine/Acceptance.antt =====
-- `validate_signal` accepts what the contract allows (src/app/domains/copy_trading/engine.py).
use signalsync_be.Base.{
  ◌≡◌, refl, ◌↔◌, ◌⊎◌, Bool, false, ◌||◌, Option, none, some, List, [], ◌∷◌, ◌++◌, arith, any, All,
  is_none, ltb, if◌then◌else◌,
}
use signalsync_be.Base.Int.{ℤ}
use signalsync_be.Base.Python.{returned, Decimal, finite, infinite, nan, decimal_le}
use signalsync_be.Engine.{
  SignalAction, open_market, place_pending, Direction, buy, sell, ParsedSignal,
  RouteExecutionPolicy, ValidationResult, option_list, prices, bad_price, prices_conflict,
  conflicts, conflict_of, range_inverted, entry_range_bad, fraction_unset, fraction_out, permission,
  missing_required, advise, validate_signal, low_confidence,
}
use signalsync_be.Engine.Contract.{
  IsPositive, Below, OnSide, StopOnSide, IsRange, HasDetails, ActionReady, IsExecutable, IsAccepted,
}

bad_price_iff : (d : Decimal) → (bad_price d ≡ false) ↔ IsPositive d
bad_price_iff (finite z) = ((λ h. ground arith), (λ h. ground arith))
bad_price_iff (infinite b) = ((λ h. cc), (λ h. absurd h))
bad_price_iff nan = ((λ h. cc), (λ h. absurd h))

any-append :
    (test : Decimal → Bool) (xs ys : List Decimal)
    → any test (xs ++ ys) ≡ (any test xs || any test ys)
any-append test [] ys = refl
any-append test (x ∷ xs) ys = ground (arith, any-append test xs ys)

bad_prices_iff : (ds : List Decimal) → (any bad_price ds ≡ false) ↔ All IsPositive ds
bad_prices_iff [] = ((λ h. tt), (λ h. refl))
bad_prices_iff (d ∷ ds) = (
  (λ h. ((bad_price_iff d).0 (ground arith), (bad_prices_iff ds).0 (ground arith))),
  (λ h. ground (arith, (bad_price_iff d).1 h.0, (bad_prices_iff ds).1 h.1)),
)

over_stop_iff :
    (sl : Decimal) (tps : List Decimal)
    → IsPositive sl
    → All IsPositive tps
    → (any (λ target. decimal_le target sl) tps ≡ false) ↔ All (λ target. Below sl target) tps
over_stop_iff sl [] h hs = ((λ e. tt), (λ e. refl))
over_stop_iff (finite z) (finite t ∷ tps) h hs =
    let ih = over_stop_iff (finite z) tps h hs.1 in
    ((λ e. (ground arith, ih.0 (ground arith))), (λ e. ground (arith, ih.1 e.1)))
over_stop_iff (infinite b) (d ∷ tps) h hs = absurd h
over_stop_iff nan (d ∷ tps) h hs = absurd h
over_stop_iff (finite z) (infinite b ∷ tps) h hs = absurd hs.0
over_stop_iff (finite z) (nan ∷ tps) h hs = absurd hs.0

under_stop_iff :
    (sl : Decimal) (tps : List Decimal)
    → IsPositive sl
    → All IsPositive tps
    → (any (λ target. decimal_le sl target) tps ≡ false) ↔ All (λ target. Below target sl) tps
under_stop_iff sl [] h hs = ((λ e. tt), (λ e. refl))
under_stop_iff (finite z) (finite t ∷ tps) h hs =
    let ih = under_stop_iff (finite z) tps h hs.1 in
    ((λ e. (ground arith, ih.0 (ground arith))), (λ e. ground (arith, ih.1 e.1)))
under_stop_iff (infinite b) (d ∷ tps) h hs = absurd h
under_stop_iff nan (d ∷ tps) h hs = absurd h
under_stop_iff (finite z) (infinite b ∷ tps) h hs = absurd hs.0
under_stop_iff (finite z) (nan ∷ tps) h hs = absurd hs.0

conflicts_iff :
    (d : Option Direction) (sl : Decimal) (tps : List Decimal)
    → IsPositive sl
    → All IsPositive tps
    → (conflicts d sl tps ≡ false) ↔ OnSide d sl tps
conflicts_iff (some buy) sl tps h hs = over_stop_iff sl tps h hs
conflicts_iff (some sell) sl tps h hs = under_stop_iff sl tps h hs
conflicts_iff (some Direction.other) sl tps h hs = ((λ e. tt), (λ e. refl))
conflicts_iff none sl tps h hs = ((λ e. tt), (λ e. refl))

conflict_of_iff :
    (o : Option Decimal) (d : Option Direction) (tps : List Decimal)
    → All IsPositive (option_list o)
    → All IsPositive tps
    → (conflict_of o d tps ≡ false) ↔ StopOnSide o d tps
unfolding conflict_of
conflict_of_iff none d tps h hs = ((λ e. tt), (λ e. refl))
conflict_of_iff (some sl) d (t ∷ tps) h hs = conflicts_iff d sl (t ∷ tps) h.0 hs
conflict_of_iff (some sl) (some buy) [] h hs = ((λ e. tt), (λ e. refl))
conflict_of_iff (some sl) (some sell) [] h hs = ((λ e. tt), (λ e. refl))
conflict_of_iff (some sl) (some Direction.other) [] h hs = ((λ e. tt), (λ e. refl))
conflict_of_iff (some sl) none [] h hs = ((λ e. tt), (λ e. refl))

range_inverted_iff :
    (low high : Option Decimal)
    → All IsPositive (option_list low)
    → All IsPositive (option_list high)
    → (range_inverted low high ≡ false) ↔ IsRange low high
range_inverted_iff none high h k = ((λ e. tt), (λ e. refl))
range_inverted_iff (some (finite a)) none h k = ((λ e. tt), (λ e. refl))
range_inverted_iff (some (finite a)) (some (finite b)) h k =
    ((λ e. ground arith), (λ e. ground arith))
range_inverted_iff (some (finite a)) (some (infinite b)) h k = absurd k.0
range_inverted_iff (some (finite a)) (some nan) h k = absurd k.0
range_inverted_iff (some (infinite a)) high h k = absurd h.0
range_inverted_iff (some nan) high h k = absurd h.0

All-append_iff :
    (xs ys : List Decimal) → All IsPositive (xs ++ ys) ↔ (All IsPositive xs × All IsPositive ys)
All-append_iff [] ys = ((λ h. (tt, h)), (λ h. h.1))
All-append_iff (x ∷ xs) ys =
    let ih = All-append_iff xs ys in
    ((λ h. ((h.0, (ih.0 h.1).0), (ih.0 h.1).1)), (λ h. (h.0.0, ih.1 (h.0.1, h.1))))

-- The tests that do not ask for the action, against their part of the contract.
abbrev IsConsistent : ParsedSignal → Type 0
IsConsistent s =
    All IsPositive (option_list s.entry)
    × All IsPositive (option_list s.entry_high)
    × All IsPositive (option_list s.stop_loss)
    × All IsPositive s.take_profits
    × StopOnSide s.stop_loss s.direction s.take_profits
    × IsRange s.entry s.entry_high

prices-split :
    (s : ParsedSignal)
    → any bad_price (prices s) ≡ false
    → All IsPositive (option_list s.entry)
      × All IsPositive (option_list s.entry_high)
      × All IsPositive (option_list s.stop_loss)
      × All IsPositive s.take_profits
unfolding prices
prices-split s h =
    let all = (bad_prices_iff (prices s)).0 h in
    let a = (All-append_iff (option_list s.entry) _).0 all in
    let b = (All-append_iff (option_list s.entry_high) _).0 a.1 in
    let c = (All-append_iff (option_list s.stop_loss) s.take_profits).0 b.1 in (a.0, b.0, c.0, c.1)

IsConsistent-of_tests :
    (s : ParsedSignal)
    → any bad_price (prices s) ≡ false
    → prices_conflict s ≡ false
    → entry_range_bad s ≡ false
    → IsConsistent s
unfolding prices_conflict entry_range_bad
IsConsistent-of_tests s h k r =
    let (e, eh, sl, tps) = prices-split s h in
    (
      e,
      eh,
      sl,
      tps,
      (conflict_of_iff s.stop_loss s.direction s.take_profits sl tps).0 k,
      (range_inverted_iff s.entry s.entry_high e eh).0 r,
    )

tests_of_consistent :
    (s : ParsedSignal)
    → IsConsistent s
    → (any bad_price (prices s) ≡ false) × (prices_conflict s ≡ false) × (entry_range_bad s ≡ false)
unfolding prices prices_conflict entry_range_bad
tests_of_consistent s (e, eh, sl, tps, side, r) = (
  (bad_prices_iff (prices s)).1 (
      (All-append_iff (option_list s.entry) _).1 (
        e,
        (All-append_iff (option_list s.entry_high) _).1
            (eh, (All-append_iff (option_list s.stop_loss) s.take_profits).1 (sl, tps)),
      )),
  (conflict_of_iff s.stop_loss s.direction s.take_profits sl tps).1 side,
  (range_inverted_iff s.entry s.entry_high e eh).1 r,
)

module _ (one : ℤ) (s : ParsedSignal) (p : RouteExecutionPolicy) where
  -- The tests that ask for the action, in the order of the code.
  accepted_tests :
      IsAccepted (validate_signal one s p)
      → (any bad_price (prices s) ≡ false)
        × (prices_conflict s ≡ false)
        × (entry_range_bad s ≡ false)
  unfolding validate_signal
  accepted_tests h = ground arith

  details_of_required :
      missing_required s p.minimum_fields ≡ some false → HasDetails s p.minimum_fields
  unfolding missing_required
  details_of_required h = ground arith

  required_of_details :
      ((s.direction ≡ some buy) ⊎ (s.direction ≡ some sell))
      → HasDetails s p.minimum_fields
      → missing_required s p.minimum_fields ≡ some false
  unfolding missing_required
  required_of_details d h = ground arith

  accepted_ready :
      (a : SignalAction)
      → s.action ≡ a
      → IsAccepted (validate_signal one s p)
      → ActionReady one a s p
  unfolding validate_signal permission fraction_unset fraction_out
  accepted_ready open_market e h = (ground arith, ground arith, details_of_required (ground arith))
  accepted_ready place_pending e h =
      (ground arith, ground arith, ground arith, details_of_required (ground arith))
  accepted_ready _ e h = ground arith

  ready-IsAccepted :
      (a : SignalAction)
      → s.action ≡ a
      → IsConsistent s
      → ActionReady one a s p
      → IsAccepted (validate_signal one s p)
  unfolding validate_signal permission fraction_unset fraction_out
  ready-IsAccepted open_market e c (fresh, side, details) =
      ground (arith, tests_of_consistent s c, required_of_details side details)
  ready-IsAccepted place_pending e c (entry, on, side, details) =
      ground (arith, tests_of_consistent s c, required_of_details side details)
  ready-IsAccepted _ e c h = ground (arith, tests_of_consistent s c)

  -- `validate_signal` accepts a signal exactly when the contract holds of it: its prices are positive
  -- and consistent, and its action is allowed by the route and complete.
  pub validate_signal-accepts_iff : IsAccepted (validate_signal one s p) ↔ IsExecutable one s p
  validate_signal-accepts_iff = (
    (λ h.
        let (prices_fine, no_conflict, range_fine) = accepted_tests h in
        let (e, eh, sl, tps, side, r) =
          IsConsistent-of_tests s prices_fine no_conflict range_fine in
        record {
          entry_positive = e;
          entry_high_positive = eh;
          stop_positive = sl;
          targets_positive = tps;
          stop_on_side = side;
          range = r;
          ready = accepted_ready s.action refl h;
        }),
    (λ c.
        ready-IsAccepted s.action refl
          (
            c.entry_positive, c.entry_high_positive, c.stop_positive, c.targets_positive,
            c.stop_on_side, c.range,
          )
          c.ready),
  )

  -- A result carries a reason exactly when it is a rejection, and the advisory exactly when the
  -- confidence is below the threshold, on every branch.
  pub validate_signal-reason :
      (r : ValidationResult)
      → validate_signal one s p ≡ returned r
      → (is_none r.reason ≡ r.accepted)
        × (r.advisory
            ≡ (if ltb s.confidence p.confidence_threshold then some low_confidence else none))
  unfolding validate_signal advise
  validate_signal-reason r h = ground arith
