-- ===== src/Assembly.antt =====
-- Which conversation a message continues: src/app/domains/copy_trading/assembly.py.
-- Identifiers and times are numbers. The search is a row of stages, each of which may decide.
pub mod Choice
pub mod Openings
mod Examples
use signalsync_be.Base.{
  ℕ, ◌+◌, Bool, true, false, not, ◌&&◌, ◌||◌, Option, none, some, List, [], ◌∷◌, select, leb, ltb,
  ◌==◌, if◌then◌else◌, is_empty, length,
}
use signalsync_be.Base.Text.{Text, text_eq, symbol_chars, strip, lower}
use signalsync_be.Engine.{
  SignalAction, open_market, place_pending, modify_sl_tp, break_even, partial_close, full_close,
  cancel_pending, additional_tp, status_only,
}

-- `normalize_symbol` of this module: no aliases, and None for an absent or empty value.
pub normalize_symbol : Option Text → Option Text
normalize_symbol none = none
normalize_symbol (some []) = none
normalize_symbol (some (c ∷ cs)) = some (symbol_chars (c ∷ cs))

pub normalize_direction : Option Text → Option Text
normalize_direction none = none
normalize_direction (some []) = none
normalize_direction (some (c ∷ cs)) = some (lower (strip (c ∷ cs)))

pub record ConversationCandidate : Type 0 where
  pub id : ℕ
  pub reply_root_message_id : Option ℕ
  pub last_message_id : ℕ
  pub symbol : Option Text
  pub direction : Option Text
  pub updated_at : ℕ
  pub opening_submitted : Bool
  pub has_active_trade : Bool

pub record ConversationChoice : Type 0 where
  pub selected : Option ConversationCandidate
  pub ambiguous : Bool

-- The arguments of `choose_conversation`, less the candidates.
pub record Update : Type 0 where
  pub reply_to_message_id : Option ℕ
  pub symbol : Option Text
  pub direction : Option Text
  pub action : Option SignalAction
  pub message_id : Option ℕ
  pub is_edit : Bool

abbrev pub chosen : ConversationCandidate → ConversationChoice
chosen c = record { selected = some c; ambiguous = false }

abbrev pub unclear : ConversationChoice
unclear = record { selected = none; ambiguous = true }

abbrev pub nothing : ConversationChoice
nothing = record { selected = none; ambiguous = false }

-- `sorted(..., key=updated_at, reverse=True)`, which keeps the order of equal times
pub insert_recent : ConversationCandidate → List ConversationCandidate → List ConversationCandidate
insert_recent c [] = c ∷ []
insert_recent c (d ∷ ds) =
    let rest = insert_recent c ds in if leb d.updated_at c.updated_at then c ∷ d ∷ ds else d ∷ rest

pub most_recent_first : List ConversationCandidate → List ConversationCandidate
most_recent_first [] = []
most_recent_first (c ∷ cs) = insert_recent c (most_recent_first cs)

-- `action in management_actions`
abbrev pub is_management : Option SignalAction → Bool
is_management (some modify_sl_tp) = true
is_management (some break_even) = true
is_management (some partial_close) = true
is_management (some full_close) = true
is_management (some cancel_pending) = true
is_management (some additional_tp) = true
is_management _ = false

abbrev pub is_modify : Option SignalAction → Bool
is_modify (some modify_sl_tp) = true
is_modify _ = false

abbrev pub is_opening : Option SignalAction → Bool
is_opening (some open_market) = true
is_opening (some place_pending) = true
is_opening _ = false

abbrev pub is_full_close : Option SignalAction → Bool
is_full_close (some full_close) = true
is_full_close _ = false

-- Which candidates an action may continue.
pub is_eligible : Option SignalAction → ConversationCandidate → Bool
is_eligible action c =
    if is_modify action
    then not c.opening_submitted || c.has_active_trade
    else if is_management action
    then c.has_active_trade
    else true

-- `wanted is None or normalized == wanted`
abbrev pub agrees : Option Text → Option Text → Bool
agrees none value = true
agrees (some wanted) none = false
agrees (some wanted) (some value) = text_eq value wanted

abbrev pub equals : Option Text → Option Text → Bool
equals none none = true
equals (some a) (some b) = text_eq a b
equals _ _ = false

-- `wanted is None or normalized in {None, wanted}`
abbrev pub agrees_or_open : Option Text → Option Text → Bool
agrees_or_open none value = true
agrees_or_open (some wanted) none = true
agrees_or_open (some wanted) (some value) = text_eq value wanted

abbrev pub follows : ℕ → ConversationCandidate → Bool
follows message_id c = c.last_message_id + 1 == message_id

-- `message_id in {reply_root_message_id, last_message_id}`
abbrev pub refers_root : ℕ → Option ℕ → Bool
refers_root message_id none = false
refers_root message_id (some root) = message_id == root

abbrev pub refers : ℕ → ConversationCandidate → Bool
refers message_id c =
    refers_root message_id c.reply_root_message_id || message_id == c.last_message_id

-- A stage decides, or leaves the question to the next one.
abbrev pub Stage : Type 0
Stage = Option ConversationChoice

-- decides only if there is exactly one
abbrev pub exactly_one : List ConversationCandidate → Stage
exactly_one (c ∷ []) = some (chosen c)
exactly_one _ = none

-- decides if there is one, and that it is unclear if there are several
abbrev pub one_of : List ConversationCandidate → Stage
one_of [] = none
one_of (c ∷ []) = some (chosen c)
one_of (c ∷ d ∷ cs) = some unclear

infixr 20 ◌or_else◌
abbrev pub ◌or_else◌ : Stage → ConversationChoice → ConversationChoice
none or_else later = later
some choice or_else later = choice

abbrev pub when : Bool → Stage → Stage
when true stage = stage
when false stage = none

abbrev pub with_message : Option ℕ → (ℕ → Stage) → Stage
with_message none stage = none
with_message (some message_id) stage = stage message_id

pub is_incomplete_opening : Update → ConversationCandidate → Bool
is_incomplete_opening u c =
    not c.opening_submitted
    && (agrees (normalize_symbol u.symbol) (normalize_symbol c.symbol)
        && agrees (normalize_direction u.direction) (normalize_direction c.direction))

-- the two stages of a stop loss or take profit on its own
pub adjacent_opening : Update → List ConversationCandidate → Stage
adjacent_opening u eligible = when (is_modify u.action) (
    with_message u.message_id
      (λ m. exactly_one (select (λ c. not c.opening_submitted && follows m c) eligible)))

pub incomplete_opening : Update → List ConversationCandidate → Stage
incomplete_opening u eligible =
    when (is_modify u.action) (one_of (select (is_incomplete_opening u) eligible))

pub adjacent_management : Update → List ConversationCandidate → Stage
adjacent_management u eligible =
    when (is_management u.action)
      (with_message u.message_id (λ m. exactly_one (select (follows m) eligible)))

pub edit_match : Update → List ConversationCandidate → Stage
edit_match u eligible =
    when u.is_edit (with_message u.message_id (λ m. one_of (select (refers m) eligible)))

pub reply_match : Update → List ConversationCandidate → Stage
reply_match u eligible =
    with_message u.reply_to_message_id (λ m. one_of (select (refers m) eligible))

pub matchable : Update → List ConversationCandidate → List ConversationCandidate
matchable u eligible =
    if is_opening u.action then select (λ c. not c.opening_submitted) eligible else eligible

-- several conversations of the symbol: only a full close takes the most recent one
abbrev pub exact_choice : Bool → List ConversationCandidate → Stage
exact_choice closing [] = none
exact_choice closing (c ∷ []) = some (chosen c)
exact_choice closing (c ∷ d ∷ cs) = some (if closing then chosen c else unclear)

pub exact_match : Update → Option Text → ConversationCandidate → Bool
exact_match u symbol c =
    equals (normalize_symbol c.symbol) symbol
    && agrees (normalize_direction u.direction) (normalize_direction c.direction)

pub unresolved_match : Update → ConversationCandidate → Bool
unresolved_match u c =
    equals (normalize_symbol c.symbol) none
    && agrees_or_open (normalize_direction u.direction) (normalize_direction c.direction)

pub by_symbol : Update → Option Text → List ConversationCandidate → ConversationChoice
unfolding exact_match unresolved_match
by_symbol u symbol cs =
    exact_choice (is_full_close u.action) (select (exact_match u symbol) cs)
    or_else (one_of (select (unresolved_match u) cs) or_else nothing)

-- `normalized_direction and normalize_direction(candidate.direction) != normalized_direction`
abbrev pub direction_differs : Option Text → Option Text → Bool
direction_differs none value = false
direction_differs (some []) value = false
direction_differs (some (c ∷ cs)) value = not (equals value (some (c ∷ cs)))

pub implicit : Update → List ConversationCandidate → ConversationChoice
implicit u [] = nothing
implicit u (c ∷ []) =
    if direction_differs (normalize_direction u.direction) (normalize_direction c.direction)
    then nothing
    else chosen c
implicit u (c ∷ d ∷ cs) = unclear

-- the rest of the search, by the symbol if there is one that is not empty
pub by_content : Update → Option Text → List ConversationCandidate → ConversationChoice
unfolding by_symbol implicit
by_content u none cs = implicit u cs
by_content u (some []) cs = implicit u cs
by_content u (some (c ∷ s)) cs = by_symbol u (some (c ∷ s)) cs

pub choose_among : Update → List ConversationCandidate → ConversationChoice
choose_among u eligible =
    adjacent_opening u eligible
    or_else (incomplete_opening u eligible
        or_else (adjacent_management u eligible
            or_else (edit_match u eligible
                or_else (reply_match u eligible
                    or_else by_content u (normalize_symbol u.symbol) (matchable u eligible)))))

pub choose_conversation : Update → List ConversationCandidate → ConversationChoice
unfolding choose_among
choose_conversation u candidates =
    choose_among u (select (is_eligible u.action) (most_recent_first candidates))
