-- ===== src/Signals/Meant.antt =====
-- Which trades a management signal means (src/app/domains/copy_trading/workers.py).
use signalsync_be.Base.{
  ℕ, ◌≡◌, ◌≢◌, refl, ◌↔◌, ◌⊎◌, inl, inr, true, false, Option, none, some, [], ◌∷◌, ◌++◌, ==_iff,
  Bool-cases, or_true, arith,
}
use signalsync_be.Base.Text.{Text, starts_with}
use signalsync_be.Symbols.{normalize_symbol}
use signalsync_be.Engine.{
  SignalAction, open_market, place_pending, modify_sl_tp, break_even, partial_close, full_close,
  cancel_pending, additional_tp, status_only,
}
use signalsync_be.Signals.{CopiedTrade, is_full_close, meets, symbols_meet, is_meant}

-- The text begins with the prefix.
abbrev pub IsPrefix : Text → Text → Type 0
IsPrefix prefix text = (rest : Text) × (text ≡ prefix ++ rest)

starts_with_iff : (text prefix : Text) → (starts_with text prefix ≡ true) ↔ IsPrefix prefix text
starts_with_iff text [] = ((λ h. (text, refl)), (λ h. refl))
starts_with_iff [] (b ∷ prefix) = ((λ h. cc), (λ (rest, e). cc))
starts_with_iff (a ∷ text) (b ∷ prefix) =
    let ih = starts_with_iff text prefix in
    (
      (λ h.
          let same : a ≡ b = ground (arith, h) in
          let (rest, e) = ih.0 (ground (arith, h)) in (rest, cc (same, e))),
      (λ (rest, e).
          let same : a ≡ b = cc e in
          let tail : text ≡ prefix ++ rest = cc e in rw ((==_iff a b).1 same) (ih.1 (rest, tail))),
    )

-- One of the normal forms of the two symbols begins with the other.
abbrev pub IsRelated : Text → Text → Type 0
IsRelated symbol own =
    IsPrefix (normalize_symbol symbol) (normalize_symbol own)
    ⊎ IsPrefix (normalize_symbol own) (normalize_symbol symbol)

-- A full close that names a symbol is for the trades of a related symbol; any other management, and
-- a full close without a symbol or with an empty one, is for those of its thread.
abbrev pub IsTarget : SignalAction → ℕ → ℕ → Option Text → CopiedTrade → Type 0
IsTarget action route_id thread_id symbol trade =
    (trade.route_id ≡ route_id)
    × (((action ≡ full_close)
          × ((name : Text) × (symbol ≡ some name)
              × (name ≢ [])
              × IsRelated name trade.signal_symbol))
        ⊎ (((action ≢ full_close) ⊎ ((symbol ≡ none) ⊎ (symbol ≡ some [])))
            × (trade.thread_id ≡ thread_id)))

full_close-cases :
    (action : SignalAction)
    → (action ≡ full_close) ⊎ ((is_full_close action ≡ false) × (action ≢ full_close))
full_close-cases full_close = inl refl
full_close-cases open_market = inr (refl, λ e. cc)
full_close-cases place_pending = inr (refl, λ e. cc)
full_close-cases modify_sl_tp = inr (refl, λ e. cc)
full_close-cases break_even = inr (refl, λ e. cc)
full_close-cases partial_close = inr (refl, λ e. cc)
full_close-cases cancel_pending = inr (refl, λ e. cc)
full_close-cases additional_tp = inr (refl, λ e. cc)
full_close-cases status_only = inr (refl, λ e. cc)

named : (name given : Text) → ◌≡◌ {A = Option Text} (some given) (some name) → given ≡ name
named name given e = cc e

module _ (thread_id : ℕ) (trade : CopiedTrade) where
  meets_iff : (name : Text) → (meets name trade ≡ true) ↔ IsRelated name trade.signal_symbol
  unfolding meets symbols_meet
  meets_iff name =
      let own = starts_with_iff (normalize_symbol trade.signal_symbol) (normalize_symbol name) in
      let other = starts_with_iff (normalize_symbol name) (normalize_symbol trade.signal_symbol) in
      (
        (λ h.
            elim (Bool-cases
              (starts_with (normalize_symbol trade.signal_symbol) (normalize_symbol name))) [
                | inl e ↦ inl (own.0 e)
                | inr e ↦ inr (other.0 (rw e at h))
              ]),
        (λ h. elim h [ inl p ↦ rw (own.1 p) refl | inr p ↦ or_true _ (other.1 p) ]),
      )

  pub is_meant_iff :
      (action : SignalAction) (symbol : Option Text)
      → (is_meant action thread_id symbol trade ≡ true) ↔ (
          ((action ≡ full_close)
            × ((name : Text) × (symbol ≡ some name)
                × (name ≢ [])
                × IsRelated name trade.signal_symbol))
          ⊎ (((action ≢ full_close) ⊎ ((symbol ≡ none) ⊎ (symbol ≡ some [])))
              × (trade.thread_id ≡ thread_id)))
  unfolding is_meant
  is_meant_iff action none =
      let same = ==_iff trade.thread_id thread_id in
      (
        (λ h. inr (inr (inl refl), same.0 h)),
        (λ h. elim h [ inl (full, (name, e, filled, other)) ↦ cc e | inr (which, e) ↦ same.1 e ]),
      )
  is_meant_iff action (some []) =
      let same = ==_iff trade.thread_id thread_id in
      (
        (λ h. inr (inr (inr refl), same.0 h)),
        (λ h. elim h [
          | inl (full, (name, e, filled, other)) ↦ absurd (filled (cc e))
          | inr (which, e) ↦ same.1 e
        ]),
      )
  is_meant_iff action (some (c ∷ cs)) =
      let same = ==_iff trade.thread_id thread_id in
      let related = meets_iff (c ∷ cs) in
      elim (full_close-cases action) [
        | inl full ↦ rw full (
          (λ h. inl (refl, (c ∷ cs, refl, (λ e. cc e), related.0 h))),
          (λ h. elim h [
            | inl (_, (name, e, filled, r)) ↦ related.1 (rw (named name (c ∷ cs) e) r)
            | inr (which, e) ↦ elim which [
              | inl not_full ↦ absurd (not_full refl)
              | inr given ↦ elim given [ inl e ↦ cc e | inr e ↦ cc e ]
            ]
          ]),
        )
        | inr (other, not_full) ↦ rw other (
          (λ h. inr (inl not_full, same.0 h)),
          (λ h. elim h [ inl (full, rest) ↦ absurd (not_full full) | inr (which, e) ↦ same.1 e ]),
        )
      ]
