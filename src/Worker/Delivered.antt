-- ===== src/Worker/Delivered.antt =====
-- No event is lost by a delivery (src/app/domains/copy_trading/worker_runtime.py).
use mathlib.Core.Path.{subst}
use signalsync_be.Base.{
  ℕ, sym, not, select, ◌≡◌, ◌≤◌, refl, ◌⊎◌, inl, inr, true, false, none, some, List, [], ◌∷◌, ◌++◌,
  arith, IsIn, ◌==◌, ltb, Bool-cases, ◌∙◌,
}
use signalsync_be.Delivery.{DeliveryResult, DeliveryDisposition, success, retry, dead_letter}
use signalsync_be.Worker.{
  Arrival, HandlerAnswer, DeadLetter, give_up, GroupState, WorkerConfig, ack, has, pending_attempts,
  handler_result, retry_with, read_failed, bury, settle, note_completed, process_event,
  process_fields, process_message, acknowledge, process_known, forget, Processed,
}

-- The dead letter that stands for this delivery.
abbrev pub IsBuried : Arrival → ℕ → GroupState → Type 0
IsBuried arrival key s =
    (letter : DeadLetter) × IsIn letter s.dead_letters
    × (letter.source_message_id ≡ arrival.message_id)
    × (letter.idempotency_key ≡ key)
    × (letter.attempts ≡ pending_attempts arrival.pending_answer)

IsIn-last : {A : Type 0} (xs : List A) (a : A) → IsIn a (xs ++ a ∷ [])
IsIn-last [] a = inl refl
IsIn-last (x ∷ xs) a = inr (IsIn-last xs a)

-- What a delivery of a well-formed event comes to: the message waits for a redelivery, the event is
-- marked as processed, or it is a dead letter with the attempts made.
abbrev pub IsAccountedFor : Arrival → ℕ → GroupState → GroupState → Type 0
IsAccountedFor arrival key before after =
    (after.unacked ≡ before.unacked)
    ⊎ ((has key after.processed ≡ true) ⊎ IsBuried arrival key after)

module _ (config : WorkerConfig) (arrival : Arrival) (key : ℕ) where
  acknowledge-keeps_letters :
      (s : GroupState) → (acknowledge arrival s).1.dead_letters ≡ s.dead_letters
  unfolding acknowledge ack
  acknowledge-keeps_letters s = ground arith

  acknowledge-keeps_marks : (s : GroupState) → (acknowledge arrival s).1.processed ≡ s.processed
  unfolding acknowledge ack
  acknowledge-keeps_marks s = ground arith

  abbrev letter : DeliveryResult → DeadLetter
  letter result = record {
    source_message_id = arrival.message_id;
    idempotency_key = key;
    attempts = pending_attempts arrival.pending_answer;
    error_code = result.error_code;
  }

  abbrev buried : DeliveryResult → GroupState → GroupState
  buried result s = record s { dead_letters = s.dead_letters ++ letter result ∷ [] }

  bury-accounts :
      (result : DeliveryResult) (s : GroupState)
      → IsAccountedFor arrival key s (bury arrival key result s).1
  unfolding bury
  bury-accounts result s = elim (Bool-cases arrival.dead_letter_saved) [
    | inl e ↦ rw e (
        inr (
          inr (
            letter result,
            rw (acknowledge-keeps_letters (buried result s))
                (IsIn-last s.dead_letters (letter result)),
            refl,
            refl,
            refl,
          )))
    | inr e ↦ rw e (inl refl)
  ]

  give_up-unacked : (s : GroupState) → (give_up config key s).unacked ≡ s.unacked
  give_up-unacked s = ground arith

  settle-accounts :
      (result : DeliveryResult) (disposition : DeliveryDisposition) (s : GroupState)
      → IsAccountedFor arrival key s (settle config arrival key result disposition s).1
  unfolding settle
  settle-accounts result retry s =
      elim (Bool-cases (ltb (pending_attempts arrival.pending_answer) config.max_attempts)) [
        | inl e ↦ rw e (inl refl)
        | inr e ↦ rw e (elim (bury-accounts result (give_up config key s)) [
          | inl waits ↦ inl (waits ∙ give_up-unacked s)
          | inr done ↦ inr done
        ])
      ]
  settle-accounts result dead_letter s = bury-accounts result s
  settle-accounts result success s = elim (Bool-cases arrival.mark_saved) [
    | inl e ↦ rw e (inr (inl (rw (acknowledge-keeps_marks _) (ground arith))))
    | inr e ↦ rw e (inl refl)
  ]

  process_known-accounts :
      (s : GroupState)
      → has key s.processed ≡ true
      → IsAccountedFor arrival key s (process_known config arrival key s).1
  unfolding process_known ack
  process_known-accounts s done = elim (Bool-cases arrival.known_acked) [
    | inl e ↦ rw e (inr (inl done))
    | inr e ↦ rw e (settle-accounts (retry_with read_failed) retry s)
  ]

  note_completed-unacked :
      (answer : HandlerAnswer) (s : GroupState) → (note_completed key answer s).unacked ≡ s.unacked
  unfolding note_completed
  note_completed-unacked answer s = ground arith

  process_event-accounts :
      (s : GroupState) → IsAccountedFor arrival key s (process_event config arrival key s).1
  unfolding process_event
  process_event-accounts s = elim (Bool-cases arrival.dedupe_read) [
    | inr unread ↦ rw unread (settle-accounts (retry_with read_failed) retry s)
    | inl read ↦ elim (Bool-cases (has key s.processed)) [
      | inl done ↦ rw (read, done) (process_known-accounts s done)
      | inr fresh ↦
          rw (read, fresh)
            (elim (settle-accounts (handler_result arrival.handler)
              (handler_result arrival.handler).disposition (note_completed key arrival.handler s)) [
                | inl waits ↦ inl (waits ∙ note_completed-unacked arrival.handler s)
                | inr done ↦ inr done
              ])
    ]
  ]

  -- A delivery of a well-formed event loses nothing, whatever the handler, Redis and the database
  -- answer, and whichever of their calls fail: the message still waits for a redelivery, or the
  -- event is marked as processed, or a dead letter with the message, the key and the attempts
  -- stands for it.
  pub process_message-accounts :
      (s : GroupState)
      → arrival.event_key ≡ some key
      → IsAccountedFor arrival key s (process_message config arrival s).1
  unfolding process_message forget
  process_message-accounts s e =
      subst
        (λ o.
          IsAccountedFor arrival key s
            (process_fields config arrival o (forget arrival.expired_keys s)).1)
        (sym e) (process_event-accounts (forget arrival.expired_keys s))

  ack-removes : (m : ℕ) (ms : List ℕ) → has m (select (λ x. not (x == m)) ms) ≡ false
  ack-removes m [] = refl
  ack-removes m (x ∷ xs) = ground (arith, ack-removes m xs)

  -- The delivery ends without an exception and its message is acknowledged.
  abbrev IsEnded : Processed → Type 0
  IsEnded (error, after) = (error ≡ none) × (has arrival.message_id after.unacked ≡ false)

  acknowledge-IsEnded : (s : GroupState) → arrival.acked ≡ true → IsEnded (acknowledge arrival s)
  unfolding acknowledge ack
  acknowledge-IsEnded s works = rw works (refl, ack-removes arrival.message_id s.unacked)

  bury-IsEnded :
      (result : DeliveryResult) (s : GroupState)
      → arrival.dead_letter_saved ≡ true
      → arrival.acked ≡ true
      → IsEnded (bury arrival key result s)
  unfolding bury
  bury-IsEnded result s saved works = rw saved (acknowledge-IsEnded _ works)

  settle-IsEnded :
      (result : DeliveryResult) (disposition : DeliveryDisposition) (s : GroupState)
      → config.max_attempts ≤ pending_attempts arrival.pending_answer
      → arrival.dead_letter_saved ≡ true
      → arrival.mark_saved ≡ true
      → arrival.acked ≡ true
      → IsEnded (settle config arrival key result disposition s)
  unfolding settle
  settle-IsEnded result retry s enough saved marked works =
      let none_left : ltb (pending_attempts arrival.pending_answer) config.max_attempts ≡ false =
        ground arith in
      rw none_left (bury-IsEnded result (give_up config key s) saved works)
  settle-IsEnded result dead_letter s enough saved marked works = bury-IsEnded result s saved works
  settle-IsEnded result success s enough saved marked works =
      rw marked (acknowledge-IsEnded _ works)

  process_event-IsEnded :
      (s : GroupState)
      → config.max_attempts ≤ pending_attempts arrival.pending_answer
      → arrival.dead_letter_saved ≡ true
      → arrival.mark_saved ≡ true
      → arrival.acked ≡ true
      → IsEnded (process_event config arrival key s)
  unfolding process_event process_known ack
  process_event-IsEnded s enough saved marked works =
      let retried = settle-IsEnded (retry_with read_failed) retry s enough saved marked works in
      elim (Bool-cases arrival.dedupe_read) [
        | inr unread ↦ rw unread retried
        | inl read ↦ elim (Bool-cases (has key s.processed)) [
          | inr fresh ↦
              rw (read, fresh)
                (settle-IsEnded (handler_result arrival.handler)
                  (handler_result arrival.handler).disposition
                  (note_completed key arrival.handler s) enough saved marked works)
          | inl done ↦ elim (Bool-cases arrival.known_acked) [
            | inl known ↦ rw (read, done, known) (refl, ack-removes arrival.message_id s.unacked)
            | inr unknown ↦ rw (read, done, unknown) retried
          ]
        ]
      ]

  -- Retries are bounded: when the attempts have reached the maximum, the database takes a dead
  -- letter, and `SETEX` and the last `XACK` succeed, a delivery of a well-formed event acknowledges
  -- the message and raises nothing, whatever the handler answers, and whether the read of the dedupe
  -- key and the `XACK` of an event that is marked succeed or not.
  pub process_message-last_attempt :
      (s : GroupState)
      → arrival.event_key ≡ some key
      → config.max_attempts ≤ pending_attempts arrival.pending_answer
      → arrival.dead_letter_saved ≡ true
      → arrival.mark_saved ≡ true
      → arrival.acked ≡ true
      → let (error, after) = process_message config arrival s in
        (error ≡ none) × (has arrival.message_id after.unacked ≡ false)
  unfolding process_message
  process_message-last_attempt s e enough saved marked works =
      subst (λ o. IsEnded (process_fields config arrival o (forget arrival.expired_keys s))) (sym e)
        (process_event-IsEnded (forget arrival.expired_keys s) enough saved marked works)
