-- ===== src/Connections.antt =====
-- The connections to broker accounts: `MetaApiConnectionManager` of
-- src/app/domains/copy_trading/metaapi_connections.py, for one account, since the entries of the two
-- dictionaries are read and written by account.
-- Coroutines interleave at their awaits: an event is a piece of code that runs without one, or under
-- the lock. A task is called by the number it was created with, and so is its connection.
pub mod Single
mod Examples
use signalsync_be.Base.{
  ℕ, suc, ◌+◌, ◌-◌, Bool, true, false, not, ◌&&◌, Option, none, some, List, [], ◌∷◌, ltb, ◌==◌, any,
  select, if◌then◌else◌,
}

-- A task of `_open` before it has stored its connection, or failed; and with only its `finally` left.
pub data Stage : Type 0 where
  connecting finishing : Stage

pub record Task : Type 0 where
  pub id : ℕ
  pub stage : Stage
  pub cancelled : Bool

pub record Entry : Type 0 where
  pub connection : ℕ
  pub last_used_at : ℕ

pub record Manager : Type 0 where
  pub entry : Option Entry
  pub opening : Option ℕ
  pub tasks : List Task
  pub next_id : ℕ
  pub closed : List ℕ

abbrev pub start : Manager
start = record { entry = none; opening = none; tasks = []; next_id = 0; closed = [] }

pub data Event : Type 0 where
  -- `acquire`, with what `_healthy` says of the entry's connection
  acquired : Bool → ℕ → Event
  -- `_open` has synchronized its connection and stores it
  stored : ℕ → ℕ → Event
  -- `_open` fails or is cancelled, and closes its connection
  failed : ℕ → Event
  -- the `finally` of `_open`
  finished : ℕ → Event
  -- `close_account`, also for `mark_unhealthy`
  account_closed : Event
  -- `evict_idle`, with the cutoff
  evicted : ℕ → Event

abbrev pub is_connecting : Task → Bool
is_connecting task = elim task.stage [ connecting ↦ true | finishing ↦ false ]

abbrev pub can_store : ℕ → Task → Bool
can_store id task = task.id == id && is_connecting task && not task.cancelled

abbrev pub can_fail : ℕ → Task → Bool
can_fail id task = task.id == id && is_connecting task

abbrev pub can_finish : ℕ → Task → Bool
can_finish id task = task.id == id && not (is_connecting task)

abbrev pub end_task : ℕ → List Task → List Task
end_task id [] = []
end_task id (task ∷ tasks) =
    let rest = end_task id tasks in
    if task.id == id then record task { stage = finishing } ∷ rest else task ∷ rest

abbrev pub same_task : Option ℕ → Task → Bool
same_task none task = false
same_task (some id) task = task.id == id

abbrev pub cancel_task : Option ℕ → List Task → List Task
cancel_task opening [] = []
cancel_task opening (task ∷ tasks) =
    let rest = cancel_task opening tasks in
    if same_task opening task then record task { cancelled = true } ∷ rest else task ∷ rest

abbrev pub new_task : ℕ → Task
new_task id = record { id = id; stage = connecting; cancelled = false }

-- `opening = self._opening.get(account_id)`, or a new task
abbrev pub join_or_open : Option ℕ → Manager → Manager
join_or_open (some id) s = s
join_or_open none s = record s {
  opening = some s.next_id;
  tasks = new_task s.next_id ∷ s.tasks;
  next_id = suc s.next_id;
}

abbrev pub closing : Option Entry → List ℕ → List ℕ
closing none closed = closed
closing (some entry) closed = entry.connection ∷ closed

-- The entry is taken out and its connection closed.
abbrev pub drop_entry : Manager → Manager
drop_entry s = record s { entry = none; closed = closing s.entry s.closed }

pub acquire : Option Entry → Bool → ℕ → Manager → Manager
acquire none healthy now s = join_or_open s.opening s
acquire (some entry) true now s = record s { entry = some (record entry { last_used_at = now }) }
acquire (some entry) false now s = join_or_open s.opening (drop_entry s)

pub evict_idle : Option Entry → ℕ → Manager → Manager
evict_idle none cutoff s = s
evict_idle (some entry) cutoff s = if ltb entry.last_used_at cutoff then drop_entry s else s

pub run : Event → Manager → Manager
unfolding acquire evict_idle
run (acquired healthy now) s = acquire s.entry healthy now s
run (stored id now) s =
    if any (can_store id) s.tasks
    then record s {
      entry = some (record { connection = id; last_used_at = now });
      tasks = end_task id s.tasks;
    }
    else s
run (failed id) s =
    if any (can_fail id) s.tasks
    then record s { tasks = end_task id s.tasks; closed = id ∷ s.closed }
    else s
run (finished id) s =
    if any (can_finish id) s.tasks
    then record s { opening = none; tasks = select (λ task. not (task.id == id)) s.tasks }
    else s
run account_closed s = record (drop_entry s) {
  opening = none;
  tasks = cancel_task s.opening s.tasks;
}
run (evicted cutoff) s = evict_idle s.entry cutoff s

pub run_all : List Event → Manager → Manager
unfolding run
run_all [] s = s
run_all (event ∷ events) s = run_all events (run event s)
