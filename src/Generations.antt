-- ===== src/Generations.antt =====
-- How a later message changes the context of a signal: `merge_context` of
-- src/app/domains/copy_trading/assembly.py, and `merge_generation_context` and
-- `corrective_action_for_submitted_edit` of src/app/domains/copy_trading/generations.py.
-- A dictionary is an association list in the order of insertion; the keys that the code names are
-- constructors.
pub mod Corrected
pub mod Merged
pub mod Actions
mod Examples
use signalsync_be.Base.{
  ℕ, Bool, true, false, not, ◌&&◌, ◌||◌, Option, none, some, List, [], ◌∷◌, ◌++◌, ◌==◌,
  if◌then◌else◌, any, is_empty,
}
use signalsync_be.Base.Text.{Text, codes, text_eq}

pub data Key : Type 0 where
  action take_profits stop_loss : Key
  other_key : ℕ → Key

-- The values that the code tells apart; numbers are those of a common small unit.
pub data Value : Type 0 where
  null : Value
  text : Text → Value
  number : ℕ → Value
  numbers : List ℕ → Value

abbrev pub Context : Type 0
Context = List (Key × Value)

abbrev pub same_key : Key → Key → Bool
same_key action action = true
same_key take_profits take_profits = true
same_key stop_loss stop_loss = true
same_key (other_key a) (other_key b) = a == b
same_key _ _ = false

-- `context.get(key)`, none for a missing key
pub get : Key → Context → Option Value
get key [] = none
get key ((k, value) ∷ context) =
    let rest = get key context in if same_key k key then some value else rest

-- `context[key] = value`
pub set : Key → Value → Context → Context
set key value [] = (key, value) ∷ []
set key value ((k, old) ∷ context) =
    let rest = set key value context in
    if same_key k key then (k, value) ∷ context else (k, old) ∷ rest

-- `value in (None, [], "")`
abbrev pub is_blank : Value → Bool
is_blank null = true
is_blank (text []) = true
is_blank (numbers []) = true
is_blank _ = false

pub merge_context : Context → Context → Context
unfolding set
merge_context current [] = current
merge_context current ((key, value) ∷ update) =
    merge_context (if is_blank value then current else set key value current) update

abbrev pub among : List Text → Option Value → Bool
among words (some (text t)) = any (text_eq t) words
among words _ = false

-- `OPEN_ACTIONS` and `MANAGEMENT_ACTIONS`
abbrev pub open_actions : List Text
open_actions = codes "open_market" ∷ codes "place_pending" ∷ []

abbrev pub management_actions : List Text
management_actions =
    codes "modify_sl_tp"
    ∷ codes "break_even"
    ∷ codes "partial_close"
    ∷ codes "full_close"
    ∷ codes "cancel_pending"
    ∷ codes "additional_tp"
    ∷ []

-- The targets of a context, `context.get("take_profits") or []`.
abbrev pub targets_of : Option Value → List ℕ
targets_of (some (numbers ns)) = ns
targets_of _ = []

abbrev pub holds : ℕ → List ℕ → Bool
holds n ns = any (λ m. m == n) ns

-- `list(dict.fromkeys(...))`: the first of equal elements is kept; `seen` are those before.
pub first_occurrences : List ℕ → List ℕ → List ℕ
first_occurrences seen [] = []
first_occurrences seen (n ∷ ns) =
    let with_n = first_occurrences (n ∷ seen) ns in
    let without_n = first_occurrences seen ns in if holds n seen then without_n else n ∷ with_n

pub merge_targets : Bool → Context → Context → Context → Context
unfolding first_occurrences
merge_targets opening_submitted current update merged =
    if not opening_submitted && not (is_empty (targets_of (get take_profits update)))
    then set take_profits
        (numbers (
          first_occurrences []
            (targets_of (get take_profits current) ++ targets_of (get take_profits update))))
        merged
    else merged

abbrev set_option : Key → Option Value → Context → Context
set_option key none context = context
set_option key (some value) context = set key value context

pub keep_action : Bool → Context → Context → Context → Context
keep_action opening_submitted current update merged =
    if not opening_submitted
      && (among open_actions (get action current) && among management_actions (get action update))
    then set_option action (get action current) merged
    else merged

pub merge_generation_context : Context → Context → Bool → Context
unfolding merge_targets keep_action
merge_generation_context current update opening_submitted =
    keep_action opening_submitted current update
      (merge_targets opening_submitted current update (merge_context current update))

abbrev pub numbers_eq : List ℕ → List ℕ → Bool
numbers_eq [] [] = true
numbers_eq (a ∷ ms) (b ∷ ns) = a == b && numbers_eq ms ns
numbers_eq _ _ = false

-- `==` of two values
abbrev pub value_eq : Value → Value → Bool
value_eq null null = true
value_eq (text s) (text t) = text_eq s t
value_eq (number a) (number b) = a == b
value_eq (numbers ms) (numbers ns) = numbers_eq ms ns
value_eq _ _ = false

-- `current.get(key) == value`, where a missing key is None.
abbrev pub is_value : Value → Option Value → Bool
is_value value none = value_eq value null
is_value value (some old) = value_eq value old

abbrev pub is_falsy : Value → Bool
is_falsy (number n) = n == 0
is_falsy value = is_blank value

abbrev pub stop_loss_changed : Option Value → Option Value → Bool
stop_loss_changed none old = false
stop_loss_changed (some null) old = false
stop_loss_changed (some value) old = not (is_value value old)

abbrev pub take_profits_changed : Option Value → Option Value → Bool
take_profits_changed none old = false
take_profits_changed (some value) old = not (is_falsy value) && not (is_value value old)

pub corrective_action_for_submitted_edit : Context → Context → Context
unfolding get set
corrective_action_for_submitted_edit current update =
    let changed =
      stop_loss_changed (get stop_loss update) (get stop_loss current)
      || take_profits_changed (get take_profits update) (get take_profits current) in
    set action (text (if changed then codes "modify_sl_tp" else codes "status_only")) update
