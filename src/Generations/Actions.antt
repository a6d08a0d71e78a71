-- ===== src/Generations/Actions.antt =====
-- The action of a merged context (src/app/domains/copy_trading/generations.py).
use signalsync_be.Base.{
  ◌≡◌, refl, ◌∙◌, Bool, true, false, not, ◌&&◌, some, Bool-cases, inl, inr, is_empty, if◌then◌else◌,
}
use signalsync_be.Base.Text.{Text, codes}
use signalsync_be.Engine.{
  SignalAction, open_market, place_pending, modify_sl_tp, break_even, partial_close, full_close,
  cancel_pending, additional_tp, status_only,
}
use signalsync_be.Generations.{
  action, take_profits, text, Context, get, is_blank, merge_context, among, open_actions,
  management_actions, merge_targets, keep_action, targets_of, merge_generation_context,
}
use signalsync_be.Generations.Corrected.{IsDict, get-set, get-set_other, get-merge_context}

-- The value of the enumeration, as a context holds it.
abbrev pub word : SignalAction → Text
word open_market = codes "open_market"
word place_pending = codes "place_pending"
word modify_sl_tp = codes "modify_sl_tp"
word break_even = codes "break_even"
word partial_close = codes "partial_close"
word full_close = codes "full_close"
word cancel_pending = codes "cancel_pending"
word additional_tp = codes "additional_tp"
word status_only = codes "status_only"

-- A signal to open a trade.
abbrev pub opens : SignalAction → Bool
opens open_market = true
opens place_pending = true
opens _ = false

-- A message about a trade, which neither opens one nor is only a status.
abbrev pub refines : SignalAction → Bool
refines open_market = false
refines place_pending = false
refines status_only = false
refines _ = true

-- The action after a message: an opening that is not submitted stays when the message refines it.
abbrev pub resulting : Bool → SignalAction → SignalAction → SignalAction
resulting true current update = update
resulting false current update = if opens current && refines update then current else update

among-open : (a : SignalAction) → among open_actions (some (text (word a))) ≡ opens a
among-open open_market = refl
among-open place_pending = refl
among-open modify_sl_tp = refl
among-open break_even = refl
among-open partial_close = refl
among-open full_close = refl
among-open cancel_pending = refl
among-open additional_tp = refl
among-open status_only = refl

among-management : (a : SignalAction) → among management_actions (some (text (word a))) ≡ refines a
among-management open_market = refl
among-management place_pending = refl
among-management modify_sl_tp = refl
among-management break_even = refl
among-management partial_close = refl
among-management full_close = refl
among-management cancel_pending = refl
among-management additional_tp = refl
among-management status_only = refl

is_blank-word : (a : SignalAction) → is_blank (text (word a)) ≡ false
is_blank-word open_market = refl
is_blank-word place_pending = refl
is_blank-word modify_sl_tp = refl
is_blank-word break_even = refl
is_blank-word partial_close = refl
is_blank-word full_close = refl
is_blank-word cancel_pending = refl
is_blank-word additional_tp = refl
is_blank-word status_only = refl

action-merge_targets :
    (submitted : Bool) (current update merged : Context)
    → get action (merge_targets submitted current update merged) ≡ get action merged
unfolding merge_targets
action-merge_targets submitted current update merged =
    elim (Bool-cases (not submitted && not (is_empty (targets_of (get take_profits update))))) [
      | inl e ↦ rw e (get-set_other take_profits action _ merged refl)
      | inr e ↦ rw e refl
    ]

action-keep_action :
    (submitted : Bool) (a b : SignalAction) (current update merged : Context)
    → get action current ≡ some (text (word a))
    → get action update ≡ some (text (word b))
    → get action merged ≡ some (text (word b))
    → get action (keep_action submitted current update merged)
      ≡ some (text (word (resulting submitted a b)))
unfolding keep_action
action-keep_action true a b current update merged is_a is_b is_merged = is_merged
action-keep_action false a b current update merged is_a is_b is_merged =
    rw (is_a, is_b, among-open a, among-management b)
      (elim (Bool-cases (opens a && refines b)) [
        | inl e ↦ rw e (get-set action (text (word a)) merged)
        | inr e ↦ rw e is_merged
      ])

-- When a context and an update without repeated keys hold the actions `a` and `b`, the merged
-- context holds `b` once the opening is submitted; before that it holds `a` if `a` is to open a
-- trade, at the market or pending, and `b` is any action but these two and a status, and else `b`.
pub merge_generation_context-action :
    (submitted : Bool) (a b : SignalAction) (current update : Context)
    → IsDict update
    → get action current ≡ some (text (word a))
    → get action update ≡ some (text (word b))
    → get action (merge_generation_context current update submitted)
      ≡ some (text (word (resulting submitted a b)))
unfolding merge_generation_context
merge_generation_context-action submitted a b current update dict is_a is_b =
    action-keep_action submitted a b current update
      (merge_targets submitted current update (merge_context current update)) is_a is_b
      (action-merge_targets submitted current update (merge_context current update)
        ∙ get-merge_context action current update dict
        ∙ rw (is_b, is_blank-word b) refl)
