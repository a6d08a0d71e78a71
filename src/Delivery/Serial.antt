-- ===== src/Delivery/Serial.antt =====
-- `KeyedSerialExecutor` preserves the order of the jobs of a key
-- (src/app/domains/copy_trading/delivery.py).
use mathlib.Core.List.{append_assoc}
use signalsync_be.Base.{
  ℕ, ◌≡◌, refl, sym, ap, ◌∙◌, Bool-cases, inl, inr, Option, none, some, List, [], ◌∷◌, ◌++◌, ◌==◌,
}
use signalsync_be.Delivery.{
  Phase, ready, running, finished, Lane, idle, with_drain, submit, drain_step, LaneStep, submits,
  drains_on, Executor, on_key, Reach, start, next,
}

module _ {Job : Type 0} where
  -- The queue, its tasks and the jobs that are not completed: no task without a queue and one for a
  -- queue, which runs the first job or has just completed it.
  pub data Shape : Option (List Job) → List (Phase Job) → List Job → Type 0 where
    quiet : Shape none [] []
    looking : (job : Job) (jobs : List Job) → Shape (some (job ∷ jobs)) (ready ∷ []) (job ∷ jobs)
    working :
        (job : Job) (jobs : List Job) → Shape (some (job ∷ jobs)) (running job ∷ []) (job ∷ jobs)
    leaving : (job : Job) (jobs : List Job) → Shape (some (job ∷ jobs)) (finished job ∷ []) jobs

  pub record IsSerial (lane : Lane Job) : Type 0 where
    pub pending : List Job
    pub shape : Shape lane.queue lane.drains pending
    pub in_order : lane.submitted ≡ lane.completed ++ pending

  with_drain-two :
      (job other : Job) (jobs : List Job) (tasks : List (Phase Job))
      → with_drain (job ∷ (jobs ++ other ∷ [])) tasks ≡ tasks
  with_drain-two job other [] tasks = refl
  with_drain-two job other (j ∷ jobs) tasks = refl

  append-in_order :
      (submitted completed pending : List Job) (job : Job)
      → submitted ≡ completed ++ pending
      → submitted ++ job ∷ [] ≡ completed ++ (pending ++ job ∷ [])
  append-in_order s c p job e = ap (λ xs. xs ++ job ∷ []) e ∙ append_assoc c p (job ∷ [])

  abbrev pub lane_of : Option (List Job) → List (Phase Job) → List Job → List Job → Lane Job
  lane_of queue tasks submitted completed = record {
    queue = queue;
    drains = tasks;
    submitted = submitted;
    completed = completed;
  }

  submit-lane_of :
      {queue : Option (List Job)} {tasks : List (Phase Job)} {pending : List Job}
      (submitted completed : List Job) (job : Job)
      → Shape queue tasks pending
      → submitted ≡ completed ++ pending
      → IsSerial (submit job (lane_of queue tasks submitted completed))
  unfolding submit
  submit-lane_of s c job quiet e = record {
    pending = job ∷ [];
    shape = looking job [];
    in_order = append-in_order s c [] job e;
  }
  submit-lane_of s c job (looking j js) e = record {
    pending = j ∷ (js ++ job ∷ []);
    shape = rw (with_drain-two j job js (ready ∷ [])) (looking j (js ++ job ∷ []));
    in_order = append-in_order s c (j ∷ js) job e;
  }
  submit-lane_of s c job (working j js) e = record {
    pending = j ∷ (js ++ job ∷ []);
    shape = rw (with_drain-two j job js (running j ∷ [])) (working j (js ++ job ∷ []));
    in_order = append-in_order s c (j ∷ js) job e;
  }
  submit-lane_of s c job (leaving j js) e = record {
    pending = js ++ job ∷ [];
    shape = rw (with_drain-two j job js (finished j ∷ [])) (leaving j (js ++ job ∷ []));
    in_order = append-in_order s c js job e;
  }

  -- The only task is the one that steps.
  only_task :
      (task : Phase Job) (before : List (Phase Job)) (phase : Phase Job) (after : List (Phase Job))
      → task ∷ [] ≡ before ++ (phase ∷ after)
      → (before ≡ []) × (phase ≡ task) × (after ≡ [])
  only_task task [] phase after e = (refl, cc, cc)
  only_task task (b ∷ []) phase after e = absurd (cc)
  only_task task (b ∷ c ∷ bs) phase after e = absurd (cc)

  no_task :
      (before : List (Phase Job)) (phase : Phase Job) (after : List (Phase Job))
      → ¬ ([] ≡ before ++ (phase ∷ after))
  no_task [] phase after e = cc
  no_task (b ∷ bs) phase after e = cc

  -- The step of the only task of a queue.
  step-lane_of :
      {queue : Option (List Job)} {tasks : List (Phase Job)} {pending : List Job}
      (submitted completed : List Job)
      → Shape queue tasks pending
      → submitted ≡ completed ++ pending
      → (before : List (Phase Job)) (phase : Phase Job) (after : List (Phase Job))
      → tasks ≡ before ++ (phase ∷ after)
      → IsSerial (drain_step (lane_of queue tasks submitted completed) before phase after)
  unfolding drain_step
  step-lane_of s c quiet e before phase after p = absurd (no_task before phase after p)
  step-lane_of s c (looking j js) e before phase after p =
      let (eb, ep, ea) = only_task ready before phase after p in
      rw (eb, ep, ea) (record { pending = j ∷ js; shape = working j js; in_order = e })
  step-lane_of s c (working j js) e before phase after p =
      let (eb, ep, ea) = only_task (running j) before phase after p in
      rw (eb, ep, ea)
        (record {
          pending = js;
          shape = leaving j js;
          in_order = e ∙ sym (append_assoc c (j ∷ []) js);
        })
  step-lane_of s c (leaving j []) e before phase after p =
      let (eb, ep, ea) = only_task (finished j) before phase after p in
      rw (eb, ep, ea) (record { pending = []; shape = quiet; in_order = e })
  step-lane_of s c (leaving j (k ∷ js)) e before phase after p =
      let (eb, ep, ea) = only_task (finished j) before phase after p in
      rw (eb, ep, ea) (record { pending = k ∷ js; shape = looking k js; in_order = e })

  pub LaneStep-IsSerial :
      {lane after : Lane Job} → LaneStep lane after → IsSerial lane → IsSerial after
  LaneStep-IsSerial (submits lane job) h =
      submit-lane_of lane.submitted lane.completed job h.shape h.in_order
  LaneStep-IsSerial (drains_on lane before phase after p) h =
      step-lane_of lane.submitted lane.completed h.shape h.in_order before phase after p

  idle-IsSerial : IsSerial (idle {Job = Job})
  idle-IsSerial = record { pending = []; shape = quiet; in_order = refl }

  -- In every state that the executor reaches, whatever the interleaving, each key has no task
  -- without a queue and exactly one for a queue; a running job is the first of its queue; and the
  -- completed jobs followed by those pending are the submitted ones, in their order.
  pub Reach-IsSerial :
      {executor : Executor Job} → Reach executor → (key : ℕ) → IsSerial (executor key)
  Reach-IsSerial start key = idle-IsSerial
  Reach-IsSerial (next reached (on_key executor at {lane = lane} step)) key =
      elim (Bool-cases (key == at)) [
        | inl e ↦ rw e (LaneStep-IsSerial step (Reach-IsSerial reached at))
        | inr e ↦ rw e (Reach-IsSerial reached key)
      ]
