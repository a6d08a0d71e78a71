-- ===== src/Generations/Corrected.antt =====
-- An edit of a message whose opening was submitted
-- (src/app/domains/copy_trading/generations.py, and its use in workers.py).
use signalsync_be.Base.{
  ℕ, ◌≡◌, refl, true, false, ◌||◌, Option, none, some, List, [], ◌∷◌, ◌==◌, ==_iff, Bool-cases, inl,
  inr, sym, ap, ◌∙◌, if◌then◌else◌,
}
use signalsync_be.Base.Text.{codes, text_eq_iff}
use signalsync_be.Generations.{
  Key, action, take_profits, stop_loss, other_key, Value, null, text, number, numbers, Context,
  same_key, get, set, is_blank, merge_context, numbers_eq, value_eq, stop_loss_changed,
  take_profits_changed, corrective_action_for_submitted_edit,
}

same_key-eq : (a b : Key) → same_key a b ≡ true → a ≡ b
same_key-eq action action h = refl
same_key-eq take_profits take_profits h = refl
same_key-eq stop_loss stop_loss h = refl
same_key-eq (other_key a) (other_key b) h = ap other_key ((==_iff a b).0 h)
same_key-eq _ _ h = cc

same_key-same : (a : Key) → same_key a a ≡ true
same_key-same action = refl
same_key-same take_profits = refl
same_key-same stop_loss = refl
same_key-same (other_key a) = (==_iff a a).1 refl

same_key-flip : (a k : Key) → same_key a k ≡ false → same_key k a ≡ false
same_key-flip a k h = elim (Bool-cases (same_key k a)) [
  | inl e ↦ let same : same_key a k ≡ true = rw (same_key-eq k a e) (same_key-same a) in cc
  | inr e ↦ e
]

pub get-set : (k : Key) (v : Value) (c : Context) → get k (set k v c) ≡ some v
unfolding get set
get-set k v [] = rw (same_key-same k) refl
get-set k v ((k', old) ∷ c) = elim (Bool-cases (same_key k' k)) [
  | inl e ↦ rw (e, e) refl
  | inr e ↦ rw (e, e) (get-set k v c)
]

pub get-set_other :
    (k k' : Key) (v : Value) (c : Context) → same_key k k' ≡ false → get k' (set k v c) ≡ get k' c
unfolding get set
get-set_other k k' v [] h = rw (h) refl
get-set_other k k' v ((a, old) ∷ c) h = elim (Bool-cases (same_key a k)) [
  | inl e ↦ let f : same_key a k' ≡ false = rw (same_key-eq a k e) h in rw (e, f) refl
  | inr e ↦ rw (e, get-set_other k k' v c h) refl
]

-- No key stands twice.
abbrev pub IsDict : Context → Type 0
IsDict [] = Unit
IsDict ((k, value) ∷ c) = (get k c ≡ none) × IsDict c

set-IsDict : (k : Key) (v : Value) (c : Context) → IsDict c → IsDict (set k v c)
unfolding get set
set-IsDict k v [] h = (refl, tt)
set-IsDict k v ((a, old) ∷ c) (fresh, h) = elim (Bool-cases (same_key a k)) [
  | inl e ↦ rw (e) (fresh, h)
  | inr e ↦ rw (e) ((get-set_other k a v c (same_key-flip a k e)) ∙ fresh, set-IsDict k v c h)
]

-- One entry of an update.
merge_entry : Key → Value → Context → Context
merge_entry a value current = if is_blank value then current else set a value current

get-merge_entry :
    (a : Key) (value : Value) (current : Context)
    → get a (merge_entry a value current) ≡ (if is_blank value then get a current else some value)
unfolding merge_entry
get-merge_entry a value current = elim (Bool-cases (is_blank value)) [
  | inl b ↦ rw (b) refl
  | inr b ↦ rw (b) (get-set a value current)
]

get-merge_entry_other :
    (a k : Key) (value : Value) (current : Context)
    → same_key a k ≡ false
    → get k (merge_entry a value current) ≡ get k current
unfolding merge_entry
get-merge_entry_other a k value current h = elim (Bool-cases (is_blank value)) [
  | inl b ↦ rw (b) refl
  | inr b ↦ rw (b) (get-set_other a k value current h)
]

-- What an update leaves of a value.
abbrev pub merged_value : Option Value → Option Value → Option Value
merged_value none old = old
merged_value (some value) old = if is_blank value then old else some value

pub get-merge_context :
    (k : Key) (current update : Context)
    → IsDict update
    → get k (merge_context current update) ≡ merged_value (get k update) (get k current)
unfolding get merge_context merge_entry
get-merge_context k current [] h = refl
get-merge_context k current ((a, value) ∷ update) (fresh, h) =
    let rest = get-merge_context k (merge_entry a value current) update h in
    elim (Bool-cases (same_key a k)) [
      | inl e ↦
          let absent : get k update ≡ none = rw (sym (same_key-eq a k e)) fresh in
          let entry : get k (merge_entry a value current)
              ≡ (if is_blank value then get k current else some value) =
            rw (same_key-eq a k e) (get-merge_entry k value current) in
          rw (e) (rest ∙ rw (absent) entry)
      | inr e ↦
          rw (e)
            (rest ∙ ap (merged_value (get k update)) (get-merge_entry_other a k value current e))
    ]

numbers_eq-same : (ns : List ℕ) → numbers_eq ns ns ≡ true
numbers_eq-same [] = refl
numbers_eq-same (n ∷ ns) = rw ((==_iff n n).1 refl, numbers_eq-same ns) refl

value_eq-same : (value : Value) → value_eq value value ≡ true
value_eq-same null = refl
value_eq-same (text s) = (text_eq_iff s s).1 refl
value_eq-same (number n) = (==_iff n n).1 refl
value_eq-same (numbers ns) = numbers_eq-same ns

-- A stop loss that is missing, None, or neither an empty text nor an empty list.
abbrev pub IsStopLoss : Option Value → Type 0
IsStopLoss (some (text [])) = ⊥
IsStopLoss (some (numbers [])) = ⊥
IsStopLoss _ = Unit

stop_loss-merged :
    (value old : Option Value)
    → IsStopLoss value
    → stop_loss_changed value (merged_value value old) ≡ false
stop_loss-merged none old h = refl
stop_loss-merged (some null) old h = refl
stop_loss-merged (some (text [])) old h = elim h [ ]
stop_loss-merged (some (numbers [])) old h = elim h [ ]
stop_loss-merged (some (text (c ∷ s))) old h = rw (value_eq-same (text (c ∷ s))) refl
stop_loss-merged (some (numbers (n ∷ ns))) old h = rw (value_eq-same (numbers (n ∷ ns))) refl
stop_loss-merged (some (number n)) old h = rw (value_eq-same (number n)) refl

take_profits-merged :
    (value old : Option Value) → take_profits_changed value (merged_value value old) ≡ false
take_profits-merged none old = refl
take_profits-merged (some null) old = refl
take_profits-merged (some (text [])) old = refl
take_profits-merged (some (text (c ∷ s))) old = rw (value_eq-same (text (c ∷ s))) refl
take_profits-merged (some (number n)) old = elim (Bool-cases (n == 0)) [
  | inl e ↦ rw (e) refl
  | inr e ↦ rw (e, value_eq-same (number n)) refl
]
take_profits-merged (some (numbers [])) old = refl
take_profits-merged (some (numbers (n ∷ ns))) old = rw (value_eq-same (numbers (n ∷ ns))) refl

-- The value of a key after an update whose action was set.
get-merged :
    (k : Key) (word : Value) (current update : Context)
    → IsDict update
    → same_key action k ≡ false
    → get k (merge_context current (set action word update))
      ≡ merged_value (get k update) (get k current)
get-merged k word current update dict other =
    get-merge_context k current (set action word update) (set-IsDict action word update dict)
    ∙ ap (λ value. merged_value value (get k current)) (get-set_other action k word update other)

-- When the dictionary of an edit has no key twice and its stop loss, if it has one, is None or
-- neither an empty text nor an empty list, then once the corrected edit is merged into the context
-- of a conversation, the correction of the same edit against that context makes it a status.
pub corrected-again :
    (current update : Context)
    → IsDict update
    → IsStopLoss (get stop_loss update)
    → get action (
        corrective_action_for_submitted_edit
          (merge_context current (corrective_action_for_submitted_edit current update))
          update)
      ≡ some (text (codes "status_only"))
unfolding corrective_action_for_submitted_edit
corrected-again current update dict is_stop_loss =
    let word : Value = text (
      if stop_loss_changed (get stop_loss update) (get stop_loss current)
        || take_profits_changed (get take_profits update) (get take_profits current)
      then codes "modify_sl_tp"
      else codes "status_only") in
    let stop =
      ap (stop_loss_changed (get stop_loss update))
        (get-merged stop_loss word current update dict refl)
      ∙ stop_loss-merged (get stop_loss update) (get stop_loss current) is_stop_loss in
    let targets =
      ap (take_profits_changed (get take_profits update))
        (get-merged take_profits word current update dict refl)
      ∙ take_profits-merged (get take_profits update) (get take_profits current) in
    rw (stop, targets) (get-set action (text (codes "status_only")) update)
