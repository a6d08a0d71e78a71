-- ===== src/Worker/Examples.antt =====
-- Examples for the stream worker (src/app/domains/copy_trading/worker_runtime.py).
use signalsync_be.Base.{
  ◌≡◌, ◌≢◌, refl, ◌≤◌, true, false, none, some, List, [], ◌∷◌, suc, inl, inr, arith,
}
use signalsync_be.Delivery.{delivered}
use signalsync_be.Worker.{
  Arrival, GroupState, WorkerConfig, answers, raises, times_delivered, no_row, has, process_message,
  process_event, handler_result, deliver_all, claim_stale_messages, pending_attempts,
}
use signalsync_be.Worker.Delivered.{
  IsAccountedFor, process_message-accounts, process_message-last_attempt,
}
use signalsync_be.Worker.Once.{times, empty, losses, deliver_all-once}
use signalsync_be.Worker.Poison.{claim_stale_messages-malformed}

abbrev worker : WorkerConfig
worker = record { max_attempts = 5; has_exhaustion_handler = true }

abbrev waiting : GroupState
waiting = record {
  unacked = 11 ∷ 12 ∷ [];
  processed = [];
  dead_letters = [];
  given_up = [];
  completed = [];
}

-- Message 11 carries the event 100, whose handler raises at the fifth delivery.
abbrev failing : Arrival
failing = record {
  message_id = 11;
  event_key = some 100;
  expired_keys = [];
  dedupe_read = true;
  known_acked = true;
  handler = raises 9;
  pending_answer = times_delivered 5;
  dead_letter_saved = true;
  mark_saved = true;
  acked = true;
}

abbrev succeeding : Arrival
succeeding = record failing { handler = answers (some delivered); pending_answer = no_row }

abbrev unreadable_message : Arrival
unreadable_message = record failing { message_id = 12; event_key = none }

fifth_attempt : worker.max_attempts ≤ pending_attempts failing.pending_answer
unfolding pending_attempts
fifth_attempt = omega arith

process_message-accounts_example :
    IsAccountedFor failing 100 waiting (process_message worker failing waiting).1
process_message-accounts_example = process_message-accounts worker failing 100 waiting refl

process_message-last_attempt_example :
    let (error, after) = process_message worker failing waiting in
    (error ≡ none) × (has 11 after.unacked ≡ false)
process_message-last_attempt_example =
    process_message-last_attempt worker failing 100 waiting refl fifth_attempt refl refl refl

-- The handler succeeds, but its mark is not saved, and it succeeds again at the redelivery.
abbrev unmarked : Arrival
unmarked = record succeeding { mark_saved = false }

abbrev deliveries : List Arrival
deliveries = failing ∷ unmarked ∷ succeeding ∷ succeeding ∷ []

completed_twice : times 100 (deliver_all worker deliveries empty).completed ≡ 2
unfolding deliver_all process_message process_event handler_result pending_attempts
completed_twice = refl

deliver_all-once_example :
    times 100 (deliver_all worker deliveries empty).completed ≤ suc (losses 100 deliveries)
deliver_all-once_example = deliver_all-once worker deliveries 100

claim_stale_messages-malformed_example :
    (claim_stale_messages worker (failing ∷ unreadable_message ∷ []) waiting).0 ≢ none
claim_stale_messages-malformed_example =
    claim_stale_messages-malformed worker (failing ∷ unreadable_message ∷ []) waiting
      unreadable_message (inr (inl refl)) refl
