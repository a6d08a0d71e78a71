-- ===== src/Connections/Single.antt =====
-- One task opens the connection of an account at a time, and none is replaced without being closed,
-- unless the account is closed meanwhile
-- (src/app/domains/copy_trading/metaapi_connections.py).
use signalsync_be.Base.{
  ℕ, ◌≤◌, ◌<◌, ◌≡◌, refl, ◌⊎◌, inl, inr, Bool, true, false, Option, none, some, List, [], ◌∷◌,
  length, All, select, any, ◌==◌, ==_iff, ltb, if◌then◌else◌, Bool-cases, arith,
}
use signalsync_be.Connections.{
  Task, Entry, Manager, start, Event, acquired, stored, failed, finished, account_closed, evicted,
  is_connecting, can_store, can_fail, can_finish, end_task, drop_entry, acquire, evict_idle, run,
  run_all, join_or_open, new_task,
}

-- Events other than the closing of the account.
abbrev pub IsQuiet : Event → Type 0
IsQuiet account_closed = ⊥
IsQuiet _ = Unit

-- No task is there, or the one that `_opening` names; and while it connects there is no entry that
-- its connection would replace.
abbrev IsLone : Option Entry → Option ℕ → List Task → Type 0
IsLone entry opening [] = opening ≡ none
IsLone entry opening (task ∷ []) =
    (opening ≡ some task.id) × ((is_connecting task ≡ false) ⊎ (entry ≡ none))
IsLone entry opening (_ ∷ _ ∷ _) = ⊥

abbrev IsSingle : Manager → Type 0
IsSingle s = IsLone s.entry s.opening s.tasks

lone-cases :
    (entry : Option Entry) (opening : Option ℕ) (tasks : List Task)
    → IsLone entry opening tasks
    → ((tasks ≡ []) × (opening ≡ none))
      ⊎ ((task : Task) × (tasks ≡ task ∷ [])
          × (opening ≡ some task.id)
          × ((is_connecting task ≡ false) ⊎ (entry ≡ none)))
lone-cases entry opening [] h = inl (refl, h)
lone-cases entry opening (task ∷ []) h = inr (task, refl, h.0, h.1)
lone-cases entry opening (_ ∷ _ ∷ _) h = absurd h

join_or_open-IsSingle :
    (s : Manager) → s.entry ≡ none → IsSingle s → IsSingle (join_or_open s.opening s)
join_or_open-IsSingle s empty h = elim (lone-cases s.entry s.opening s.tasks h) [
  | inl (t, o) ↦ rw (o, t) (refl, inr empty)
  | inr (task, t, o, c) ↦ rw (o, t) (refl, c)
]

drop_entry-IsSingle : (s : Manager) → IsSingle s → IsSingle (drop_entry s)
drop_entry-IsSingle s h = elim (lone-cases s.entry s.opening s.tasks h) [
  | inl (t, o) ↦ rw t o
  | inr (task, t, o, c) ↦ rw t (o, inr refl)
]

acquire-IsSingle :
    (entry : Option Entry) (healthy : Bool) (now : ℕ) (s : Manager)
    → s.entry ≡ entry
    → IsSingle s
    → IsSingle (acquire entry healthy now s)
unfolding acquire
acquire-IsSingle none healthy now s e h = join_or_open-IsSingle s e h
acquire-IsSingle (some entry) false now s e h =
    join_or_open-IsSingle (drop_entry s) refl (drop_entry-IsSingle s h)
acquire-IsSingle (some entry) true now s e h = elim (lone-cases s.entry s.opening s.tasks h) [
  | inl (t, o) ↦ rw t o
  | inr (task, t, o, c) ↦ elim c [
    | inl finishing_now ↦ rw t (o, inl finishing_now)
    | inr empty ↦ absurd (cc (e, empty))
  ]
]

evict_idle-IsSingle :
    (entry : Option Entry) (cutoff : ℕ) (s : Manager)
    → IsSingle s
    → IsSingle (evict_idle entry cutoff s)
unfolding evict_idle
evict_idle-IsSingle none cutoff s h = h
evict_idle-IsSingle (some entry) cutoff s h = elim (Bool-cases (ltb entry.last_used_at cutoff)) [
  | inl e ↦ rw e (drop_entry-IsSingle s h)
  | inr e ↦ rw e h
]

-- A task that stores, fails or finishes is the only one.
ended-IsSingle :
    (id : ℕ) (s changed : Manager) (test : Task → Bool)
    → ((task : Task) → test task ≡ true → (task.id == id) ≡ true)
    → changed.opening ≡ s.opening
    → changed.tasks ≡ end_task id s.tasks
    → IsSingle s
    → IsSingle (if any test s.tasks then changed else s)
ended-IsSingle id s changed test same o t h = elim (lone-cases s.entry s.opening s.tasks h) [
  | inl (none_left, no_task) ↦ rw none_left no_task
  | inr (task, only, named, c) ↦ elim (Bool-cases (test task)) [
    | inl e ↦ rw (only, e) (rw (o, t, only, same task e) (named, inl refl))
    | inr e ↦ rw (only, e) (named, c)
  ]
]

finished-IsSingle : (id : ℕ) (s : Manager) → IsSingle s → IsSingle (run (finished id) s)
unfolding run
finished-IsSingle id s h = elim (lone-cases s.entry s.opening s.tasks h) [
  | inl (none_left, no_task) ↦ rw none_left no_task
  | inr (task, only, named, c) ↦ elim (Bool-cases (can_finish id task)) [
    | inl e ↦ rw (only, e) (rw (finish_id task e) refl)
    | inr e ↦ rw (only, e) (named, c)
  ]
]
  where
    finish_id : (task : Task) → can_finish id task ≡ true → (task.id == id) ≡ true
    finish_id task e = ground (arith, e)

run-IsSingle : (event : Event) (s : Manager) → IsQuiet event → IsSingle s → IsSingle (run event s)
unfolding run
run-IsSingle (acquired healthy now) s q h = acquire-IsSingle s.entry healthy now s refl h
run-IsSingle (stored id now) s q h =
    ended-IsSingle id s _ (can_store id) (λ task t. ground (arith, t)) refl refl h
run-IsSingle (failed id) s q h =
    ended-IsSingle id s _ (can_fail id) (λ task t. ground (arith, t)) refl refl h
run-IsSingle (finished id) s q h = finished-IsSingle id s h
run-IsSingle account_closed s q h = absurd q
run-IsSingle (evicted cutoff) s q h = evict_idle-IsSingle s.entry cutoff s h

run_all-IsSingle :
    (events : List Event) (s : Manager)
    → All IsQuiet events
    → IsSingle s
    → IsSingle (run_all events s)
unfolding run_all
run_all-IsSingle [] s q h = h
run_all-IsSingle (event ∷ events) s q h =
    run_all-IsSingle events (run event s) q.1 (run-IsSingle event s q.0 h)

-- However the requests, the opening tasks and the evictions interleave, as long as the account is
-- not closed: at most one task is opening its connection, and while it connects there is no entry,
-- so that the connection that it stores replaces none that would stay open.
pub run_all-single :
    (events : List Event)
    → All IsQuiet events
    → let s = run_all events start in
      (length s.tasks ≤ 1) × ((any is_connecting s.tasks ≡ false) ⊎ (s.entry ≡ none))
run_all-single events q =
    let s = run_all events start in
    elim (lone-cases s.entry s.opening s.tasks (run_all-IsSingle events start q refl)) [
      | inl (t, o) ↦ rw t (omega arith, inl refl)
      | inr (task, t, o, c) ↦
          rw t (omega arith, elim c [ inl ended ↦ inl (rw ended refl) | inr empty ↦ inr empty ])
    ]

-- A task that opens the connection of the account, before any entry.
abbrev pub while_opening : ℕ → ℕ → List ℕ → Manager
while_opening id next_id closed = record {
  entry = none;
  opening = some id;
  tasks = new_task id ∷ [];
  next_id = next_id;
  closed = closed;
}

-- The account is closed, a request comes before the cancelled task ends, and one after.
abbrev pub closing_race : ℕ → ℕ → List Event
closing_race id now =
    account_closed ∷ acquired true now ∷ failed id ∷ finished id ∷ acquired true now ∷ []

-- A finding: when the account is closed while a task opens its connection, and a request comes
-- before the cancelled task ends, that task's `finally` takes out the new task, so that the next
-- request opens a second connection beside it.
pub closing_race-two :
    (id now next_id : ℕ) (closed : List ℕ)
    → id < next_id
    → length (
        select is_connecting
          (run_all (closing_race id now) (while_opening id next_id closed)).tasks)
      ≡ 2
unfolding run_all run acquire
closing_race-two id now next_id closed old = simp (self, differs)
  where
    self : (id == id) ≡ true
    self = (==_iff id id).1 refl

    differs : (next_id == id) ≡ false
    differs = ground (arith, old)
