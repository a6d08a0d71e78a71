-- ===== src/Delivery.antt =====
-- Delivery of events to handlers: src/app/domains/copy_trading/delivery.py.
-- The executor keeps a queue for each key and at most some tasks of its thread pool that drain it.
-- The lock makes each of the blocks below one step; the thread pool may take any step of any task at
-- any time, so its number of threads is left open. Callers do not cancel the futures, so setting a
-- result does not fail.
pub mod Serial
pub mod Progress
mod Examples
use signalsync_be.Base.{
  ℕ, Bool, true, false, Option, none, some, List, [], ◌∷◌, ◌++◌, ◌≡◌, ◌==◌, if◌then◌else◌,
}

pub data DeliveryDisposition : Type 0 where
  success retry dead_letter : DeliveryDisposition

-- Error codes are compared by no one here, so they are numbers.
pub record DeliveryResult : Type 0 where
  pub disposition : DeliveryDisposition
  pub error_code : Option ℕ

abbrev pub delivered : DeliveryResult
delivered = record { disposition = success; error_code = none }

-- `normalize_delivery_result`: a handler that returns no result has succeeded.
abbrev pub normalize_delivery_result : Option DeliveryResult → DeliveryResult
normalize_delivery_result none = delivered
normalize_delivery_result (some result) = result

-- Where a `_drain` task stands: before it takes the lock to look at the queue, while the function of
-- a job runs, or before it takes the lock to remove that job.
pub data Phase (Job : Type 0) : Type 0 where
  ready : Phase Job
  running : Job → Phase Job
  finished : Job → Phase Job

-- What the executor holds for one key: its queue, absent when the dict has no entry, and the tasks
-- that drain it; and, for the statements, the jobs submitted and the jobs completed, in order.
pub record Lane (Job : Type 0) : Type 0 where
  pub queue : Option (List Job)
  pub drains : List (Phase Job)
  pub submitted : List Job
  pub completed : List Job

abbrev pub idle : {Job : Type 0} → Lane Job
idle = record { queue = none; drains = []; submitted = []; completed = [] }

module _ {Job : Type 0} where
  -- `setdefault(key, deque())`, then `append`
  abbrev pub enqueue : Option (List Job) → Job → List Job
  enqueue none job = job ∷ []
  enqueue (some jobs) job = jobs ++ job ∷ []

  -- `if len(queue) == 1: self._executor.submit(self._drain, key)`
  abbrev pub with_drain : List Job → List (Phase Job) → List (Phase Job)
  with_drain (_ ∷ []) tasks = ready ∷ tasks
  with_drain _ tasks = tasks

  pub submit : Job → Lane Job → Lane Job
  submit job lane =
      let queue = enqueue lane.queue job in
      record lane {
        queue = some queue;
        drains = with_drain queue lane.drains;
        submitted = lane.submitted ++ job ∷ [];
      }

  -- The first locked block of `_drain`: an empty queue ends the task.
  pub look : Lane Job → Option (List Job) → List (Phase Job) → List (Phase Job) → Lane Job
  look lane (some (job ∷ jobs)) before after = record lane {
    drains = before ++ (running job ∷ after);
  }
  look lane _ before after = record lane { queue = none; drains = before ++ after }

  -- The second locked block: `popleft`, and the end of the task if nothing is left.
  pub take_off : Lane Job → Option (List Job) → List (Phase Job) → List (Phase Job) → Lane Job
  take_off lane (some (_ ∷ [])) before after = record lane {
    queue = none;
    drains = before ++ after;
  }
  take_off lane (some (_ ∷ job ∷ jobs)) before after = record lane {
    queue = some (job ∷ jobs);
    drains = before ++ (ready ∷ after);
  }
  take_off lane _ before after = record lane { drains = before ++ (ready ∷ after) }

  -- One step of the task that stands between `before` and `after`. A job that raises completes its
  -- future with the exception, which is no other step.
  pub drain_step : Lane Job → List (Phase Job) → Phase Job → List (Phase Job) → Lane Job
  unfolding look take_off
  drain_step lane before ready after = look lane lane.queue before after
  drain_step lane before (running job) after = record lane {
    drains = before ++ (finished job ∷ after);
    completed = lane.completed ++ job ∷ [];
  }
  drain_step lane before (finished job) after = take_off lane lane.queue before after

  -- What can happen to one key.
  pub data LaneStep : Lane Job → Lane Job → Type 0 where
    submits : (lane : Lane Job) (job : Job) → LaneStep lane (submit job lane)
    drains_on :
        (lane : Lane Job) (before : List (Phase Job)) (phase : Phase Job) (after : List (Phase Job))
        → lane.drains ≡ before ++ (phase ∷ after)
        → LaneStep lane (drain_step lane before phase after)

-- The executor: a lane for each key, of which a step changes one.
abbrev pub Executor : Type 0 → Type 0
Executor Job = ℕ → Lane Job

module _ {Job : Type 0} where
  abbrev pub at_key : ℕ → Lane Job → Executor Job → Executor Job
  at_key key lane executor k = if k == key then lane else executor k

  pub data Step : Executor Job → Executor Job → Type 0 where
    on_key :
        (executor : Executor Job) (key : ℕ) {lane : Lane Job}
        → LaneStep (executor key) lane
        → Step executor (at_key key lane executor)

  pub data Reach : Executor Job → Type 0 where
    start : Reach (λ key. idle)
    next : {before after : Executor Job} → Reach before → Step before after → Reach after
