-- ===== src/Generations/Examples.antt =====
-- Examples for merged contexts (src/app/domains/copy_trading/generations.py).
use signalsync_be.Base.{◌≡◌, refl, false, some, [], ◌∷◌}
use signalsync_be.Base.Text.{codes}
use signalsync_be.Generations.{
  action, take_profits, stop_loss, text, number, numbers, Context, get, merge_generation_context,
  merge_context, set, corrective_action_for_submitted_edit,
}
use signalsync_be.Generations.Corrected.{corrected-again}
use signalsync_be.Engine.{open_market, additional_tp}
use signalsync_be.Generations.Actions.{word, resulting, merge_generation_context-action}

abbrev opening : Context
opening =
    (action, text (codes "open_market"))
    ∷ (take_profits, numbers (2350 ∷ 2400 ∷ []))
    ∷ (stop_loss, number 2300)
    ∷ []

abbrev more_targets : Context
more_targets =
    (action, text (codes "additional_tp")) ∷ (take_profits, numbers (2400 ∷ 2450 ∷ [])) ∷ []

merge_generation_context-action_example :
    get action (merge_generation_context opening more_targets false)
    ≡ some (text (word (resulting false open_market additional_tp)))
unfolding get
merge_generation_context-action_example =
    merge_generation_context-action false open_market additional_tp opening more_targets
      (refl, (refl, tt)) refl refl

abbrev edit : Context
edit =
    (action, text (codes "open_market"))
    ∷ (take_profits, numbers (2350 ∷ 2400 ∷ []))
    ∷ (stop_loss, number 2310)
    ∷ []

abbrev corrected : Context → Context
corrected current = corrective_action_for_submitted_edit current edit

moves_stop_loss : get action (corrected opening) ≡ some (text (codes "modify_sl_tp"))
unfolding corrective_action_for_submitted_edit get set
moves_stop_loss = refl

corrected-again_example :
    get action (corrected (merge_context opening (corrected opening)))
    ≡ some (text (codes "status_only"))
unfolding get
corrected-again_example = corrected-again opening edit (refl, (refl, (refl, tt))) tt
