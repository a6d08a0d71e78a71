-- ===== src/Signals/Lifecycle.antt =====
-- The life of a route's assembly of a signal: `mark_generation_submitted`, `_completed`, `_failed`
-- and `_expired` of src/app/domains/copy_trading/generations.py, and `_resolve_opening_generation`,
-- `expire_signal_threads` and `_handle_deleted_message` of workers.py.
-- Activities are left out.
use signalsync_be.Base.{
  ℕ, suc, Bool, true, false, not, ◌&&◌, Option, none, some, List, [], ◌∷◌, leb, ◌==◌, any, is_empty,
  if◌then◌else◌,
}

pub data RouteAssemblyState : Type 0 where
  assembling ready executing completed expired skipped failed : RouteAssemblyState

-- The states of a conversation and of its older thread.
pub data SignalConversationState : Type 0 where
  in_progress done timed_out ambiguous : SignalConversationState

-- `REQUIRED_DETAILS_TIMEOUT`, or another text.
pub data TerminalReason : Type 0 where
  required_details_timeout : TerminalReason
  other_reason : ℕ → TerminalReason

pub record RouteSignalAssembly : Type 0 where
  pub conversation_id : ℕ
  pub route_id : ℕ
  pub state : RouteAssemblyState
  pub message_references : List ℕ
  pub opening_intent_id : Option ℕ
  pub terminal_reason : Option TerminalReason
  pub assembly_deadline : ℕ
  pub accepted_at : Option ℕ
  pub completed_at : Option ℕ

-- `legacy_state` is the state of the thread that `legacy_thread_id` names, none where it is gone.
pub record SignalConversation : Type 0 where
  pub id : ℕ
  pub source_id : ℕ
  pub state : SignalConversationState
  pub legacy_state : Option SignalConversationState

pub record SignalTables : Type 0 where
  pub assemblies : List RouteSignalAssembly
  pub conversations : List SignalConversation

abbrev pub first_intent : Option ℕ → ℕ → Option ℕ
first_intent none intent_id = some intent_id
first_intent (some first) intent_id = some first

abbrev pub mark_generation_submitted : RouteSignalAssembly → ℕ → ℕ → RouteSignalAssembly
mark_generation_submitted assembly intent_id now = record assembly {
  state = executing;
  opening_intent_id = first_intent assembly.opening_intent_id intent_id;
  accepted_at = some now;
  completed_at = none;
  terminal_reason = none;
}

abbrev pub mark_generation_completed : RouteSignalAssembly → ℕ → RouteSignalAssembly
mark_generation_completed assembly now = record assembly {
  state = completed;
  completed_at = some now;
  terminal_reason = none;
}

abbrev pub mark_generation_failed : RouteSignalAssembly → TerminalReason → ℕ → RouteSignalAssembly
mark_generation_failed assembly reason now = record assembly {
  state = failed;
  completed_at = some now;
  terminal_reason = some reason;
}

abbrev pub mark_generation_expired : RouteSignalAssembly → TerminalReason → ℕ → RouteSignalAssembly
mark_generation_expired assembly reason now = record assembly {
  state = expired;
  completed_at = some now;
  terminal_reason = some reason;
}

abbrev pub is_assembling : RouteAssemblyState → Bool
is_assembling assembling = true
is_assembling _ = false

-- `state in [assembling, ready]`
abbrev pub is_before_execution : RouteAssemblyState → Bool
is_before_execution assembling = true
is_before_execution ready = true
is_before_execution _ = false

-- `state in [assembling, ready, executing]`
abbrev pub is_still_active : RouteAssemblyState → Bool
is_still_active assembling = true
is_still_active ready = true
is_still_active executing = true
is_still_active _ = false

-- `_resolve_opening_generation` on the assembly of the action: whether the action opens a trade, the
-- reason of a failure, and for each intent of the action, if any is found, and for the given one,
-- whether it is confirmed.
pub resolve_opening_generation :
    Bool → Option TerminalReason → List Bool → Bool → ℕ → RouteSignalAssembly → RouteSignalAssembly
resolve_opening_generation false failure siblings own now assembly = assembly
resolve_opening_generation true (some reason) siblings own now assembly =
    mark_generation_failed assembly reason now
resolve_opening_generation true none siblings own now assembly =
    if any (λ confirmed. not confirmed) (if is_empty siblings then own ∷ [] else siblings)
    then assembly
    else mark_generation_completed assembly now

unfoldable pub is_overdue : ℕ → RouteSignalAssembly → Bool
is_overdue now assembly = is_assembling assembly.state && leb assembly.assembly_deadline now

unfoldable pub expire_overdue : ℕ → List RouteSignalAssembly → List RouteSignalAssembly
unfolding is_overdue
expire_overdue now [] = []
expire_overdue now (a ∷ assemblies) =
    let rest = expire_overdue now assemblies in
    if is_overdue now a
    then mark_generation_expired a required_details_timeout now ∷ rest
    else a ∷ rest

abbrev pub has_overdue : ℕ → ℕ → List RouteSignalAssembly → Bool
has_overdue now id assemblies = any (λ a. is_overdue now a && a.conversation_id == id) assemblies

abbrev pub has_active : ℕ → List RouteSignalAssembly → Bool
has_active id assemblies = any (λ a. a.conversation_id == id && is_still_active a.state) assemblies

abbrev pub if_there :
    Option SignalConversationState → SignalConversationState → Option SignalConversationState
if_there none state = none
if_there (some _) state = some state

abbrev pub end_conversation : SignalConversation → SignalConversation
end_conversation c = record c {
  state = timed_out;
  legacy_state = if_there c.legacy_state timed_out;
}

-- The conversations of expired assemblies end, unless one of their assemblies goes on.
unfoldable pub end_conversations :
    ℕ
    → List RouteSignalAssembly
    → List RouteSignalAssembly
    → List SignalConversation
    → List SignalConversation
unfolding is_overdue
end_conversations now before after [] = []
end_conversations now before after (c ∷ conversations) =
    let rest = end_conversations now before after conversations in
    if has_overdue now c.id before && not (has_active c.id after)
    then end_conversation c ∷ rest
    else c ∷ rest

unfoldable pub count_overdue : ℕ → List RouteSignalAssembly → ℕ
unfolding is_overdue
count_overdue now [] = 0
count_overdue now (a ∷ assemblies) =
    let rest = count_overdue now assemblies in if is_overdue now a then suc rest else rest

unfoldable pub expire_signal_threads : ℕ → SignalTables → ℕ × SignalTables
unfolding expire_overdue end_conversations count_overdue
expire_signal_threads now tables =
    let after = expire_overdue now tables.assemblies in
    (
      count_overdue now tables.assemblies,
      record {
        assemblies = after;
        conversations = end_conversations now tables.assemblies after tables.conversations;
      },
    )

abbrev pub of_source : ℕ → ℕ → List SignalConversation → Bool
of_source source_id id conversations =
    any (λ c. c.id == id && c.source_id == source_id) conversations

-- `_handle_deleted_message`: a deleted message ends the assemblies that refer to it and wait, for
-- the routes that exist.
pub handle_deleted_message :
    ℕ
    → ℕ
    → (ℕ → Bool)
    → List SignalConversation
    → List RouteSignalAssembly
    → List RouteSignalAssembly
handle_deleted_message source_id message_id route_exists conversations [] = []
handle_deleted_message source_id message_id route_exists conversations (a ∷ assemblies) =
    let rest = handle_deleted_message source_id message_id route_exists conversations assemblies in
    if of_source source_id a.conversation_id conversations
      && any (λ m. m == message_id) a.message_references
      && route_exists a.route_id
      && is_before_execution a.state
    then record a { state = expired } ∷ rest
    else a ∷ rest
