-- ===== src/Assembly/Choice.antt =====
-- What `choose_conversation` may select (src/app/domains/copy_trading/assembly.py).
use mathlib.Core.Path.{subst}
use signalsync_be.Base.{
  ℕ, ◌≡◌, refl, ◌⊎◌, inl, inr, Bool, true, false, not, ◌&&◌, Option, none, some, List, [], ◌∷◌,
  select, arith, IsIn, IsIn-select, Bool-cases, leb,
}
use signalsync_be.Base.Text.{Text}
use signalsync_be.Engine.{
  SignalAction, modify_sl_tp, break_even, partial_close, full_close, cancel_pending, additional_tp,
}
use signalsync_be.Assembly.{
  ConversationCandidate, ConversationChoice, Update, insert_recent, most_recent_first, is_eligible,
  is_modify, is_management, is_full_close, Stage, exactly_one, one_of, exact_choice, ◌or_else◌,
  when, with_message, follows, refers, is_incomplete_opening, adjacent_opening, incomplete_opening,
  adjacent_management, edit_match, reply_match, is_opening, matchable, exact_match,
  unresolved_match, by_symbol, implicit, by_content, choose_among, choose_conversation,
  direction_differs, normalize_direction, normalize_symbol,
}

IsIn-insert_recent :
    (c : ConversationCandidate) (ds : List ConversationCandidate) {a : ConversationCandidate}
    → IsIn a (insert_recent c ds)
    → (a ≡ c) ⊎ IsIn a ds
unfolding insert_recent
IsIn-insert_recent c [] (inl p) = inl p
IsIn-insert_recent c [] (inr q) = elim q [ ]
IsIn-insert_recent c (d ∷ ds) h = elim (Bool-cases (leb d.updated_at c.updated_at)) [
  | inl e ↦ elim (rw e at h) [ inl p ↦ inl p | inr q ↦ inr q ]
  | inr e ↦ elim (rw e at h) [
    | inl p ↦ inr (inl p)
    | inr q ↦ elim (IsIn-insert_recent c ds q) [ inl p ↦ inl p | inr r ↦ inr (inr r) ]
  ]
]

IsIn-most_recent_first :
    (cs : List ConversationCandidate) (a : ConversationCandidate)
    → IsIn a (most_recent_first cs)
    → IsIn a cs
unfolding most_recent_first
IsIn-most_recent_first [] a h = h
IsIn-most_recent_first (c ∷ cs) a h = elim (IsIn-insert_recent c (most_recent_first cs) h) [
  | inl p ↦ inl p
  | inr q ↦ inr (IsIn-most_recent_first cs a q)
]

IsIn-matchable :
    (u : Update) (cs : List ConversationCandidate) (c : ConversationCandidate)
    → IsIn c (matchable u cs)
    → IsIn c cs
unfolding matchable
IsIn-matchable u cs c m = elim (Bool-cases (is_opening u.action)) [
  | inl e ↦ (IsIn-select (λ c. not c.opening_submitted) cs (rw e at m)).0
  | inr e ↦ rw e at m
]

module _ (P : ConversationCandidate → Type 0) where
  -- A choice selects nothing, or what satisfies `P` and is not called ambiguous.
  abbrev pub PicksFrom : Option ConversationCandidate → Bool → Type 0
  PicksFrom none ambiguous = Unit
  PicksFrom (some c) ambiguous = P c × (ambiguous ≡ false)

  abbrev pub Picks : ConversationChoice → Type 0
  Picks choice = PicksFrom choice.selected choice.ambiguous

  abbrev pub PicksStage : Stage → Type 0
  PicksStage none = Unit
  PicksStage (some choice) = Picks choice

  pub or_else-Picks :
      (stage : Stage) (later : ConversationChoice)
      → PicksStage stage
      → Picks later
      → Picks (stage or_else later)
  or_else-Picks none later h k = k
  or_else-Picks (some choice) later h k = h

  pub exactly_one-Picks :
      (cs : List ConversationCandidate)
      → ((c : ConversationCandidate) → IsIn c cs → P c)
      → PicksStage (exactly_one cs)
  exactly_one-Picks [] h = tt
  exactly_one-Picks (c ∷ []) h = (h c (inl refl), refl)
  exactly_one-Picks (c ∷ d ∷ cs) h = tt

  pub one_of-Picks :
      (cs : List ConversationCandidate)
      → ((c : ConversationCandidate) → IsIn c cs → P c)
      → PicksStage (one_of cs)
  one_of-Picks [] h = tt
  one_of-Picks (c ∷ []) h = (h c (inl refl), refl)
  one_of-Picks (c ∷ d ∷ cs) h = tt

  pub exact_choice-Picks :
      (closing : Bool) (cs : List ConversationCandidate)
      → ((c : ConversationCandidate) → IsIn c cs → P c)
      → PicksStage (exact_choice closing cs)
  exact_choice-Picks closing [] h = tt
  exact_choice-Picks closing (c ∷ []) h = (h c (inl refl), refl)
  exact_choice-Picks true (c ∷ d ∷ cs) h = (h c (inl refl), refl)
  exact_choice-Picks false (c ∷ d ∷ cs) h = tt

  pub when-Picks : (test : Bool) (stage : Stage) → PicksStage stage → PicksStage (when test stage)
  when-Picks true stage h = h
  when-Picks false stage h = tt

  pub with_message-Picks :
      (m : Option ℕ) (stage : ℕ → Stage)
      → ((message_id : ℕ) → PicksStage (stage message_id))
      → PicksStage (with_message m stage)
  with_message-Picks none stage h = tt
  with_message-Picks (some message_id) stage h = h message_id

  pub implicit-Picks :
      (u : Update) (cs : List ConversationCandidate)
      → ((c : ConversationCandidate) → IsIn c cs → P c)
      → Picks (implicit u cs)
  unfolding implicit
  implicit-Picks u [] h = tt
  implicit-Picks u (c ∷ []) h =
      elim (Bool-cases
        (direction_differs (normalize_direction u.direction) (normalize_direction c.direction))) [
          | inl e ↦ rw e tt
          | inr e ↦ rw e (h c (inl refl), refl)
        ]
  implicit-Picks u (c ∷ d ∷ cs) h = tt

  pub by_content-Picks :
      (u : Update) (symbol : Option Text) (cs : List ConversationCandidate)
      → ((c : ConversationCandidate) → IsIn c cs → P c)
      → Picks (by_content u symbol cs)
  unfolding by_content by_symbol
  by_content-Picks u none cs h = implicit-Picks u cs h
  by_content-Picks u (some []) cs h = implicit-Picks u cs h
  by_content-Picks u (some (c ∷ s)) cs h =
      or_else-Picks _ _
        (exact_choice-Picks (is_full_close u.action) _
          (λ d m. h d (IsIn-select (exact_match u (some (c ∷ s))) cs m).0))
        (or_else-Picks _ _ (one_of-Picks _ (λ d m. h d (IsIn-select (unresolved_match u) cs m).0))
          tt)

  pub choose_among-Picks :
      (u : Update) (cs : List ConversationCandidate)
      → ((c : ConversationCandidate) → IsIn c cs → P c)
      → Picks (choose_among u cs)
  unfolding choose_among adjacent_opening incomplete_opening adjacent_management edit_match
      reply_match
  choose_among-Picks u cs h =
      or_else-Picks _ _
        (when-Picks (is_modify u.action) _ (
          with_message-Picks u.message_id _ (λ m.
            exactly_one-Picks _
              (λ c i. h c (IsIn-select (λ d. not d.opening_submitted && follows m d) cs i).0))))
        (or_else-Picks _ _
          (when-Picks (is_modify u.action) _
            (one_of-Picks _ (λ c i. h c (IsIn-select (is_incomplete_opening u) cs i).0)))
          (or_else-Picks _ _
            (when-Picks (is_management u.action) _ (
              with_message-Picks u.message_id _
                (λ m. exactly_one-Picks _ (λ c i. h c (IsIn-select (follows m) cs i).0))))
            (or_else-Picks _ _
              (when-Picks u.is_edit _ (
                with_message-Picks u.message_id _
                  (λ m. one_of-Picks _ (λ c i. h c (IsIn-select (refers m) cs i).0))))
              (or_else-Picks _ _
                (with_message-Picks u.reply_to_message_id _
                  (λ m. one_of-Picks _ (λ c i. h c (IsIn-select (refers m) cs i).0)))
                (by_content-Picks u (normalize_symbol u.symbol) (matchable u cs)
                  (λ c i. h c (IsIn-matchable u cs c i)))))))

-- Which conversations an action may continue.
abbrev pub Continues : Option SignalAction → ConversationCandidate → Type 0
Continues (some modify_sl_tp) c = (c.opening_submitted ≡ false) ⊎ (c.has_active_trade ≡ true)
Continues (some break_even) c = c.has_active_trade ≡ true
Continues (some partial_close) c = c.has_active_trade ≡ true
Continues (some full_close) c = c.has_active_trade ≡ true
Continues (some cancel_pending) c = c.has_active_trade ≡ true
Continues (some additional_tp) c = c.has_active_trade ≡ true
Continues _ c = Unit

eligible-Continues :
    (action : Option SignalAction) (c : ConversationCandidate)
    → is_eligible action c ≡ true
    → Continues action c
unfolding is_eligible
eligible-Continues action c h = ground arith

abbrev IsFit : Update → List ConversationCandidate → ConversationCandidate → Type 0
IsFit u candidates c = IsIn c candidates × Continues u.action c

pub selected-Picks :
    (P : ConversationCandidate → Type 0) (choice : ConversationChoice) (c : ConversationCandidate)
    → Picks P choice
    → choice.selected ≡ some c
    → P c × (choice.ambiguous ≡ false)
selected-Picks P choice c h e = subst (λ o. PicksFrom P o choice.ambiguous) e h

-- A conversation is selected only from the candidates, never together with the ambiguous flag, and
-- only if the action may continue it: a management action needs an active trade, and a change of
-- stop loss or target an active trade or an opening that is not submitted.
pub choose_conversation-Continues :
    (u : Update) (candidates : List ConversationCandidate) (c : ConversationCandidate)
    → (choose_conversation u candidates).selected ≡ some c
    → IsIn c candidates
      × Continues u.action c
      × ((choose_conversation u candidates).ambiguous ≡ false)
unfolding choose_conversation
choose_conversation-Continues u candidates c e =
    let eligible = select (is_eligible u.action) (most_recent_first candidates) in
    let picks = choose_among-Picks (IsFit u candidates) u eligible (λ d m.
      let (listed, fits) = IsIn-select (is_eligible u.action) (most_recent_first candidates) m in
      (IsIn-most_recent_first candidates d listed, eligible-Continues u.action d fits)) in
    let (fit, clear) = selected-Picks (IsFit u candidates) (choose_among u eligible) c picks e in
    (fit.0, fit.1, clear)
