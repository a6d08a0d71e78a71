-- ===== src/Risk/Lists.antt =====
-- What the symbol lists of an account match (`_matches_symbol_list` of
-- src/app/domains/copy_trading/execution.py).
use signalsync_be.Base.{
  ◌≡◌, ◌≢◌, refl, ◌↔◌, inl, inr, true, Option, none, some, List, [], ◌∷◌, any, IsIn, Bool-cases,
  arith, Bool,
}
use signalsync_be.Base.Text.{Text, has_content, starts_with, symbol_chars}
use signalsync_be.Symbols.{normalize_symbol, canonical}
use signalsync_be.Base.Int.{ℤ}
use signalsync_be.Base.Python.{returned, raised}
use signalsync_be.Risk.{
  matches_candidate, matches_symbol_list, RiskRequest, symbol_not_allowed, check_equity,
  ensure_account_risk_within_limits,
}
use signalsync_be.Risk.Limits.{ensure_account_risk_iff}

any-IsIn :
    (test : Text → Bool) (xs : List Text)
    → any test xs ≡ true
    → (c : Text) × IsIn c xs × (test c ≡ true)
any-IsIn test [] h = cc
any-IsIn test (x ∷ xs) h = elim (Bool-cases (test x)) [
  | inl e ↦ (x, inl refl, e)
  | inr e ↦ let (c, m, t) = any-IsIn test xs (rw e at h) in (c, inr m, t)
]

any-of :
    (test : Text → Bool) (xs : List Text) (c : Text)
    → IsIn c xs
    → test c ≡ true
    → any test xs ≡ true
any-of test [] c h t = elim h [ ]
any-of test (x ∷ xs) c (inl p) t = rw (← p) (rw t)
any-of test (x ∷ xs) c (inr q) t = ground (arith, any-of test xs c q t)

module _ (symbol : Text) (configured : List Text) where
  -- A symbol matches a list exactly when its normal form starts with that of a candidate of the
  -- list which is not blank.
  pub matches_symbol_list_iff : (matches_symbol_list symbol configured ≡ true) ↔ (
      (c : Text) × IsIn c configured
      × (has_content c ≡ true)
      × (starts_with (normalize_symbol symbol) (normalize_symbol c) ≡ true))
  unfolding matches_symbol_list
  matches_symbol_list_iff = (
    (λ h.
        let (c, m, t) = any-IsIn (matches_candidate (normalize_symbol symbol)) configured h in
        (c, m, ground arith, ground arith)),
    (λ w. let (c, m, content, starts) = w in any-of _ configured c m (ground arith)),
  )

  -- A candidate without a letter or digit has the empty text as its normal form.
  matches_symbol_list-punctuation :
      (c : Text)
      → IsIn c configured
      → has_content c ≡ true
      → symbol_chars c ≡ []
      → matches_symbol_list symbol configured ≡ true
  matches_symbol_list-punctuation c m content none_left =
      matches_symbol_list_iff.1 (c, m, content, (unfold normalize_symbol canonical in rw none_left))

check_equity-other :
    (divide : ℤ → ℤ → ℤ) (request : RiskRequest) (equity : Option ℤ)
    → check_equity divide request equity ≢ raised symbol_not_allowed
unfolding check_equity
check_equity-other divide request none h = cc h
check_equity-other divide request (some equity) h = ground arith

not_refused :
    (divide : ℤ → ℤ → ℤ) (request : RiskRequest)
    → matches_symbol_list request.symbol request.allowed_symbols ≡ true
    → ensure_account_risk_within_limits divide request ≢ raised symbol_not_allowed
unfolding ensure_account_risk_within_limits
not_refused divide request listed h =
    ground (arith, listed, check_equity-other divide request request.equity)

-- A finding: a candidate that is not blank and has no letter or digit, such as a dash, stands for
-- every symbol. Where it is among the blocked symbols of an account, the risk check refuses every
-- request, and where it is among the allowed symbols, the check refuses none as not allowed.
pub ensure_account_risk-punctuation :
    (divide : ℤ → ℤ → ℤ) (c : Text) (blocking allowing : RiskRequest)
    → has_content c ≡ true
    → symbol_chars c ≡ []
    → IsIn c blocking.blocked_symbols
    → IsIn c allowing.allowed_symbols
    → (ensure_account_risk_within_limits divide blocking ≢ returned tt)
      × (ensure_account_risk_within_limits divide allowing ≢ raised symbol_not_allowed)
ensure_account_risk-punctuation divide c blocking allowing content none_left blocked allowed = (
  (λ passes.
      let within = (ensure_account_risk_iff divide blocking).0 passes in
      cc (
        within.not_blocked,
        matches_symbol_list-punctuation blocking.symbol blocking.blocked_symbols c blocked content
            none_left,
      )),
  not_refused divide allowing (
      matches_symbol_list-punctuation allowing.symbol allowing.allowed_symbols c allowed content
        none_left),
)
