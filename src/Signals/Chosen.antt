-- ===== src/Signals/Chosen.antt =====
-- Which trades a management signal is for (src/app/domains/copy_trading/workers.py).
use signalsync_be.Base.{
  ℕ, ◌≤◌, ◌≡◌, refl, ap, ◌↔◌, ◌⊎◌, inl, inr, Bool, true, Option, some, List, [], ◌∷◌, map, leb,
  ◌==◌, ==_iff, IsIn, All, select, IsIn-select, Bool-cases, leb→le, arith,
}
use signalsync_be.Base.Text.{Text}
use signalsync_be.Engine.{SignalAction}
use signalsync_be.Signals.{
  CopiedTrade, manages, insert_by_age, oldest_first, is_meant, management_intent_targets,
}
use signalsync_be.Signals.Meant.{IsTarget, is_meant_iff}

-- No trade is younger than one after it.
abbrev pub IsByAge : List CopiedTrade → Type 0
IsByAge [] = Unit
IsByAge (trade ∷ trades) = All (λ t. trade.created_at ≤ t.created_at) trades × IsByAge trades

All-insert_by_age :
    (P : CopiedTrade → Type 0) (trade : CopiedTrade) (trades : List CopiedTrade)
    → P trade
    → All P trades
    → All P (insert_by_age trade trades)
unfolding insert_by_age
All-insert_by_age P trade [] p h = (p, tt)
All-insert_by_age P trade (t ∷ trades) p h = elim (Bool-cases (leb trade.created_at t.created_at)) [
  | inl e ↦ rw e (p, h)
  | inr e ↦ rw e (h.0, All-insert_by_age P trade trades p h.1)
]

older-All :
    (m n : ℕ) (trades : List CopiedTrade)
    → m ≤ n
    → All (λ t. n ≤ t.created_at) trades
    → All (λ t. m ≤ t.created_at) trades
older-All m n [] h k = tt
older-All m n (t ∷ trades) h k = (omega (arith, k.0), older-All m n trades h k.1)

insert_by_age-IsByAge :
    (trade : CopiedTrade) (trades : List CopiedTrade)
    → IsByAge trades
    → IsByAge (insert_by_age trade trades)
unfolding insert_by_age
insert_by_age-IsByAge trade [] h = (tt, tt)
insert_by_age-IsByAge trade (t ∷ trades) h = elim (Bool-cases (leb trade.created_at t.created_at)) [
  | inl e ↦
      let order = leb→le trade.created_at t.created_at e in
      rw e ((order, older-All trade.created_at t.created_at trades order h.0), h)
  | inr e ↦ rw e (
    All-insert_by_age (λ u. t.created_at ≤ u.created_at) trade trades (ground (arith, e)) h.0,
    insert_by_age-IsByAge trade trades h.1,
  )
]

oldest_first-IsByAge : (trades : List CopiedTrade) → IsByAge (oldest_first trades)
unfolding oldest_first
oldest_first-IsByAge [] = tt
oldest_first-IsByAge (trade ∷ trades) =
    insert_by_age-IsByAge trade (oldest_first trades) (oldest_first-IsByAge trades)

IsIn-insert_by_age :
    (trade : CopiedTrade) (trades : List CopiedTrade) (a : CopiedTrade)
    → IsIn a (insert_by_age trade trades) ↔ ((a ≡ trade) ⊎ IsIn a trades)
unfolding insert_by_age
IsIn-insert_by_age trade [] a = ((λ h. h), (λ h. h))
IsIn-insert_by_age trade (t ∷ trades) a = elim (Bool-cases (leb trade.created_at t.created_at)) [
  | inl e ↦ rw e ((λ h. h), (λ h. h))
  | inr e ↦ rw e (
      let ih = IsIn-insert_by_age trade trades a in
      (
        (λ h. elim h [
          | inl p ↦ inr (inl p)
          | inr q ↦ elim (ih.0 q) [ inl p ↦ inl p | inr r ↦ inr (inr r) ]
        ]),
        (λ h. elim h [
          | inl p ↦ inr (ih.1 (inl p))
          | inr q ↦ elim q [ inl p ↦ inl p | inr r ↦ inr (ih.1 (inr r)) ]
        ]),
      ))
]

IsIn-oldest_first :
    (trades : List CopiedTrade) (a : CopiedTrade) → IsIn a (oldest_first trades) ↔ IsIn a trades
unfolding oldest_first
IsIn-oldest_first [] a = ((λ h. h), (λ h. h))
IsIn-oldest_first (trade ∷ trades) a =
    let ih = IsIn-oldest_first trades a in
    let step = IsIn-insert_by_age trade (oldest_first trades) a in
    (
      (λ h. elim (step.0 h) [ inl p ↦ inl p | inr q ↦ inr (ih.0 q) ]),
      (λ h. elim h [ inl p ↦ step.1 (inl p) | inr q ↦ step.1 (inr (ih.1 q)) ]),
    )

IsIn-kept :
    (test : CopiedTrade → Bool) (trades : List CopiedTrade) {a : CopiedTrade}
    → IsIn a trades
    → test a ≡ true
    → IsIn a (select test trades)
IsIn-kept test [] h t = absurd h
IsIn-kept test (x ∷ xs) h t = elim (Bool-cases (test x)) [
  | inl e ↦ rw e (elim h [ inl p ↦ inl p | inr q ↦ inr (IsIn-kept test xs q t) ])
  | inr e ↦ rw e (elim h [ inl p ↦ absurd (cc (ap test p, t, e)) | inr q ↦ IsIn-kept test xs q t ])
]

-- A management signal is turned into intents for exactly the copied trades of the route that it
-- means, none of another route, and the oldest first: with a symbol, a full close means those of a
-- symbol whose normal form extends that of the given one or is extended by it; any other management,
-- or a full close without a symbol, means those of its thread.
pub management_intent_targets-exact :
    (action : SignalAction) (trades : List CopiedTrade) (route_id thread_id : ℕ)
    (symbol : Option Text)
    → manages action ≡ true
    → (targets : List CopiedTrade) × (management_intent_targets action trades route_id thread_id
          symbol
        ≡ map (λ trade. some trade) targets)
      × IsByAge targets
      × ((trade : CopiedTrade)
          → IsIn trade targets
            ↔ (IsIn trade trades × IsTarget action route_id thread_id symbol trade))
unfolding management_intent_targets
management_intent_targets-exact action trades route_id thread_id symbol managing = (
  oldest_first chosen,
  rw managing refl,
  oldest_first-IsByAge chosen,
  λ trade.
      let age = IsIn-oldest_first chosen trade in
      (
        (λ h.
            let (of_route, meant) =
              IsIn-select (is_meant action thread_id symbol) route_trades (age.0 h) in
            let (there, same) = IsIn-select (λ t. t.route_id == route_id) trades of_route in
            (
              there,
              (
                (==_iff trade.route_id route_id).0 same,
                (is_meant_iff thread_id trade action symbol).0 meant,
              ),
            )),
        (λ (there, (own, meant)). age.1 (
            IsIn-kept (is_meant action thread_id symbol) route_trades
              (IsIn-kept (λ t. t.route_id == route_id) trades there
                ((==_iff trade.route_id route_id).1 own))
              ((is_meant_iff thread_id trade action symbol).1 meant))),
      ),
)
  where
    route_trades : List CopiedTrade
    route_trades = select (λ t. t.route_id == route_id) trades

    chosen : List CopiedTrade
    chosen = select (is_meant action thread_id symbol) route_trades
