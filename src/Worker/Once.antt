-- ===== src/Worker/Once.antt =====
-- How often an event is completed (src/app/domains/copy_trading/worker_runtime.py).
use signalsync_be.Base.{
  ℕ, suc, ◌+◌, ◌≤◌, ◌≡◌, refl, sym, inl, inr, Bool, true, false, not, ◌&&◌, Option, none, some,
  List, [], ◌∷◌, arith, ◌==◌, if◌then◌else◌, select, Bool-cases, ==_iff,
}
use signalsync_be.Delivery.{DeliveryResult}
use signalsync_be.Worker.{
  Arrival, GroupState, WorkerConfig, ack, has, bury, settle, note_completed, process_event,
  process_message, deliver_all, forget, process_fields, process_known, acknowledge,
}

-- How often the handler completed the event.
abbrev pub times : ℕ → List ℕ → ℕ
times k [] = 0
times k (j ∷ js) = if j == k then suc (times k js) else times k js

abbrev pub empty : GroupState
empty = record { unacked = []; processed = []; dead_letters = []; given_up = []; completed = [] }

abbrev is_event : ℕ → Option ℕ → Bool
is_event k none = false
is_event k (some key) = key == k

-- How often a delivery may lose the mark of the event: by the expiry of its key, and where it is
-- a delivery of the event whose `SETEX` fails.
abbrev pub losses_of : ℕ → Arrival → ℕ
losses_of k arrival =
    (if has k arrival.expired_keys then 1 else 0)
    + (if is_event k arrival.event_key && not arrival.mark_saved then 1 else 0)

abbrev pub losses : ℕ → List Arrival → ℕ
losses k [] = 0
losses k (arrival ∷ arrivals) = losses_of k arrival + losses k arrivals

-- A completion more than the marks that were lost only while the event is marked.
abbrev IsBounded : ℕ → ℕ → GroupState → Type 0
IsBounded k lost s = times k s.completed ≤ lost + (if has k s.processed then 1 else 0)

module _ (config : WorkerConfig) (k : ℕ) where
  has-kept :
      (expired_keys processed : List ℕ)
      → has k expired_keys ≡ false
      → has k (select (λ j. not (has j expired_keys)) processed) ≡ has k processed
  has-kept expired_keys [] h = refl
  has-kept expired_keys (j ∷ processed) h = elim (Bool-cases (has j expired_keys)) [
    | inr e ↦ rw (e, has-kept expired_keys processed h) refl
    | inl e ↦ elim (Bool-cases (j == k)) [
      | inl same ↦
          let expired : has k expired_keys ≡ true = rw (sym ((==_iff j k).0 same)) e in
          absurd (cc (expired, h))
      | inr other ↦ rw (e, other) (has-kept expired_keys processed h)
    ]
  ]

  forget-IsBounded :
      (expired_keys : List ℕ) (lost : ℕ) (s : GroupState)
      → IsBounded k lost s
      → IsBounded k (lost + (if has k expired_keys then 1 else 0)) (forget expired_keys s)
  unfolding forget
  forget-IsBounded expired_keys lost s h = elim (Bool-cases (has k expired_keys)) [
    | inl e ↦ rw e (ground arith)
    | inr e ↦ rw (e, has-kept expired_keys s.processed e) (omega (arith, h))
  ]

  bury-IsBounded :
      (arrival : Arrival) (key lost : ℕ) (result : DeliveryResult) (s : GroupState)
      → IsBounded k lost s
      → IsBounded k lost (bury arrival key result s).1
  unfolding bury acknowledge ack
  bury-IsBounded arrival key lost result s h = ground arith

  process_event-IsBounded :
      (arrival : Arrival) (key lost : ℕ) (s : GroupState)
      → IsBounded k lost s
      → IsBounded k
          (lost + (if key == k && not arrival.mark_saved then 1 else 0))
          (process_event config arrival key s).1
  unfolding process_event process_known settle bury acknowledge note_completed ack
  process_event-IsBounded arrival key lost s h = ground arith

  process_fields-IsBounded :
      (arrival : Arrival) (event_key : Option ℕ) (lost : ℕ) (s : GroupState)
      → IsBounded k lost s
      → IsBounded k
          (lost + (if is_event k event_key && not arrival.mark_saved then 1 else 0))
          (process_fields config arrival event_key s).1
  unfolding process_fields
  process_fields-IsBounded arrival none lost s h = omega (arith, h)
  process_fields-IsBounded arrival (some key) lost s h =
      process_event-IsBounded arrival key lost s h

  deliver_all-IsBounded :
      (arrivals : List Arrival) (lost : ℕ) (s : GroupState)
      → IsBounded k lost s
      → IsBounded k (lost + losses k arrivals) (deliver_all config arrivals s)
  unfolding deliver_all process_message
  deliver_all-IsBounded [] lost s h = omega (arith, h)
  deliver_all-IsBounded (a ∷ arrivals) lost s h =
      let kept = forget-IsBounded a.expired_keys lost s h in
      let step =
        process_fields-IsBounded a a.event_key (lost + (if has k a.expired_keys then 1 else 0))
          (forget a.expired_keys s) kept in
      let rest =
        deliver_all-IsBounded arrivals
          (lost
            + (if has k a.expired_keys then 1 else 0)
            + (if is_event k a.event_key && not a.mark_saved then 1 else 0))
          (process_message config a s).1 step in
      omega (arith, rest)

-- Over any deliveries one after another, with repetitions, retries and failures of every call, the
-- handler completes the event of an idempotency key at most once more than its mark is lost: than
-- its key expires before a delivery, or `SETEX` fails in a delivery of the event. If neither
-- happens, it completes the event at most once.
pub deliver_all-once :
    (config : WorkerConfig) (arrivals : List Arrival) (k : ℕ)
    → times k (deliver_all config arrivals empty).completed ≤ suc (losses k arrivals)
deliver_all-once config arrivals k =
    ground (arith, deliver_all-IsBounded config k arrivals 0 empty (omega arith))
