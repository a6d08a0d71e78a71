-- ===== src/Worker.antt =====
-- The stream worker: `StreamWorker._process_message`, `_pending_attempts`, `_persist_dead_letter` and
-- `_claim_stale_messages` of src/app/domains/copy_trading/worker_runtime.py.
-- Redis, the database and the handler are outside the model: what they answer at one delivery is a
-- record of answers, and each call may fail. The key that marks an event as processed may expire
-- before any delivery.
pub mod Delivered
pub mod Once
pub mod Poison
mod Examples
use signalsync_be.Base.{
  ℕ, Bool, true, false, not, ◌&&◌, ◌||◌, Option, none, some, List, [], ◌∷◌, ◌++◌, ltb, ◌==◌,
  if◌then◌else◌, any, select,
}
use signalsync_be.Base.Python.{Outcome, returned, raised}
use signalsync_be.Delivery.{
  DeliveryDisposition, success, retry, dead_letter, DeliveryResult, normalize_delivery_result,
}

-- What the handler does with an event.
pub data HandlerAnswer : Type 0 where
  answers : Option DeliveryResult → HandlerAnswer
  raises : ℕ → HandlerAnswer

-- What `XPENDING` says of a message.
pub data PendingAnswer : Type 0 where
  unavailable no_row : PendingAnswer
  times_delivered : ℕ → PendingAnswer

-- One delivery: the message, the idempotency key of its event if the fields are a well-formed event,
-- and the answers of the outside: the dedupe keys that have expired since the delivery before, and
-- for each call whether it succeeds or raises, which are the read of the dedupe key, the `XACK` of an
-- event that it marks, the database's commit of a dead letter, `SETEX`, and the last `XACK`.
pub record Arrival : Type 0 where
  pub message_id : ℕ
  pub event_key : Option ℕ
  pub expired_keys : List ℕ
  pub dedupe_read : Bool
  pub known_acked : Bool
  pub handler : HandlerAnswer
  pub pending_answer : PendingAnswer
  pub dead_letter_saved : Bool
  pub mark_saved : Bool
  pub acked : Bool

pub record DeadLetter : Type 0 where
  pub source_message_id : ℕ
  pub idempotency_key : ℕ
  pub attempts : ℕ
  pub error_code : Option ℕ

-- The messages of the group that are not acknowledged, the keys marked as processed, the dead
-- letters, the events given up to the exhaustion handler, and, for the statements, the keys of the
-- events that the handler completed.
pub record GroupState : Type 0 where
  pub unacked : List ℕ
  pub processed : List ℕ
  pub dead_letters : List DeadLetter
  pub given_up : List ℕ
  pub completed : List ℕ

pub data WorkerError : Type 0 where
  malformed_event database_error redis_error : WorkerError

abbrev pub has : ℕ → List ℕ → Bool
has k ks = any (λ j. j == k) ks

-- `xack`
unfoldable pub ack : ℕ → GroupState → GroupState
ack message_id s = record s { unacked = select (λ m. not (m == message_id)) s.unacked }

-- `_pending_attempts`
pub pending_attempts : PendingAnswer → ℕ
pending_attempts unavailable = 1
pending_attempts no_row = 1
pending_attempts (times_delivered n) = n

abbrev pub retry_with : ℕ → DeliveryResult
retry_with code = record { disposition = retry; error_code = some code }

-- The `except` clause: an exception of the handler asks for a retry.
pub handler_result : HandlerAnswer → DeliveryResult
handler_result (answers result) = normalize_delivery_result result
handler_result (raises code) = retry_with code

-- The error code of a failed call of Redis inside the `try`.
abbrev pub read_failed : ℕ
read_failed = 0

abbrev pub is_retry : DeliveryDisposition → Bool
is_retry retry = true
is_retry _ = false

abbrev pub is_success : DeliveryDisposition → Bool
is_success success = true
is_success _ = false

-- What the worker is set up with: its number of attempts, and whether it has an exhaustion handler,
-- whose exceptions are swallowed.
pub record WorkerConfig : Type 0 where
  pub max_attempts : ℕ
  pub has_exhaustion_handler : Bool

abbrev pub Processed : Type 0
Processed = Option WorkerError × GroupState

-- The last `XACK`, which raises where Redis fails.
pub acknowledge : Arrival → GroupState → Processed
unfolding ack
acknowledge arrival s =
    if arrival.acked then (none, ack arrival.message_id s) else (some redis_error, s)

-- `_persist_dead_letter`, then the acknowledgement
pub bury : Arrival → ℕ → DeliveryResult → GroupState → Processed
unfolding acknowledge
bury arrival key result s =
    if arrival.dead_letter_saved
    then acknowledge arrival (record s {
      dead_letters =
          s.dead_letters
          ++ record {
            source_message_id = arrival.message_id;
            idempotency_key = key;
            attempts = pending_attempts arrival.pending_answer;
            error_code = result.error_code;
          }
            ∷ [];
    })
    else (some database_error, s)

abbrev pub give_up : WorkerConfig → ℕ → GroupState → GroupState
give_up config key s =
    if config.has_exhaustion_handler then record s { given_up = s.given_up ++ key ∷ [] } else s

-- What follows the handler: leave the message for a redelivery, bury it, or mark it processed.
pub settle :
    WorkerConfig → Arrival → ℕ → DeliveryResult → DeliveryDisposition → GroupState → Processed
unfolding bury acknowledge
settle config arrival key result retry s =
    if ltb (pending_attempts arrival.pending_answer) config.max_attempts
    then (none, s)
    else bury arrival key result (give_up config key s)
settle config arrival key result dead_letter s = bury arrival key result s
settle config arrival key result success s =
    if arrival.mark_saved
    then acknowledge arrival (record s { processed = key ∷ s.processed })
    else (some redis_error, s)

-- `completed` records what the handler has done, also where nothing is saved afterwards.
pub note_completed : ℕ → HandlerAnswer → GroupState → GroupState
note_completed key answer s =
    if is_success (handler_result answer).disposition
    then record s { completed = key ∷ s.completed }
    else s

-- An event that is marked: its `XACK` stands inside the `try`.
pub process_known : WorkerConfig → Arrival → ℕ → GroupState → Processed
unfolding settle ack
process_known config arrival key s =
    if arrival.known_acked
    then (none, ack arrival.message_id s)
    else settle config arrival key (retry_with read_failed) retry s

pub process_event : WorkerConfig → Arrival → ℕ → GroupState → Processed
unfolding settle note_completed process_known
process_event config arrival key s =
    if not arrival.dedupe_read
    then settle config arrival key (retry_with read_failed) retry s
    else if has key s.processed
    then process_known config arrival key s
    else (let result = handler_result arrival.handler in
        settle config arrival key result result.disposition (note_completed key arrival.handler s))

-- The keys that expired.
pub forget : List ℕ → GroupState → GroupState
forget expired_keys s = record s { processed = select (λ k. not (has k expired_keys)) s.processed }

-- `_process_message`: the fields are parsed before the `try`.
pub process_fields : WorkerConfig → Arrival → Option ℕ → GroupState → Processed
process_fields config arrival none s = (some malformed_event, s)
process_fields config arrival (some key) s = process_event config arrival key s

pub process_message : WorkerConfig → Arrival → GroupState → Processed
unfolding process_fields forget
process_message config arrival s =
    process_fields config arrival arrival.event_key (forget arrival.expired_keys s)

-- The loop of `_claim_stale_messages`, which an exception leaves.
pub claim_stale_messages : WorkerConfig → List Arrival → GroupState → Processed
claim_stale_messages config [] s = (none, s)
claim_stale_messages config (arrival ∷ arrivals) s =
    let (error, s') = process_message config arrival s in
    elim error [ some e ↦ (some e, s') | none ↦ claim_stale_messages config arrivals s' ]

-- Deliveries one after another, in the executor: an exception ends only its own delivery.
pub deliver_all : WorkerConfig → List Arrival → GroupState → GroupState
deliver_all config [] s = s
deliver_all config (arrival ∷ arrivals) s =
    deliver_all config arrivals (process_message config arrival s).1
