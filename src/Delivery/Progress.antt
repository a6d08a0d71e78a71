-- ===== src/Delivery/Progress.antt =====
-- The tasks of `KeyedSerialExecutor` leave no job behind (src/app/domains/copy_trading/delivery.py).
use mathlib.Core.List.{append_assoc, append-nil}
use signalsync_be.Base.{ℕ, ◌≡◌, refl, sym, ◌∙◌, none, some, Option, List, [], ◌∷◌, ◌++◌}
use signalsync_be.Delivery.{Phase, ready, running, finished, Lane, drain_step, Executor, Reach}
use signalsync_be.Delivery.Serial.{Shape, quiet, looking, working, leaving, lane_of, Reach-IsSerial}

module _ {Job : Type 0} where
  -- Steps of the tasks of a key alone, with no further submission.
  pub data Drains : Lane Job → Lane Job → Type 0 where
    stays : {lane : Lane Job} → Drains lane lane
    after_step :
        {lane last : Lane Job} (before : List (Phase Job)) (phase : Phase Job)
        (after : List (Phase Job))
        → lane.drains ≡ before ++ (phase ∷ after)
        → Drains (drain_step lane before phase after) last
        → Drains lane last

  -- A run of the tasks after which no task and no queue is left, and all that was submitted is
  -- completed in its order.
  pub record Finishes (lane : Lane Job) : Type 0 where
    pub last : Lane Job
    pub run : Drains lane last
    pub no_queue : last.queue ≡ none
    pub no_drains : last.drains ≡ []
    pub all_done : last.completed ≡ lane.submitted

  from_looking :
      (job : Job) (jobs : List Job) (s c : List Job)
      → s ≡ c ++ (job ∷ jobs)
      → Finishes (lane_of (some (job ∷ jobs)) (ready ∷ []) s c)
  unfolding drain_step
  from_looking job [] s c e = record {
    last = lane_of none [] s (c ++ job ∷ []);
    run =
        after_step [] ready [] refl
          (after_step [] (running job) [] refl (after_step [] (finished job) [] refl stays));
    no_queue = refl;
    no_drains = refl;
    all_done = sym e;
  }
  from_looking job (j ∷ jobs) s c e =
      let rest =
        from_looking j jobs s (c ++ job ∷ []) (e ∙ sym (append_assoc c (job ∷ []) (j ∷ jobs))) in
      record {
        last = rest.last;
        run =
            after_step [] ready [] refl
              (after_step [] (running job) [] refl (after_step [] (finished job) [] refl rest.run));
        no_queue = rest.no_queue;
        no_drains = rest.no_drains;
        all_done = rest.all_done;
      }

  from_leaving :
      (job : Job) (jobs : List Job) (s c : List Job)
      → s ≡ c ++ jobs
      → Finishes (lane_of (some (job ∷ jobs)) (finished job ∷ []) s c)
  unfolding drain_step
  from_leaving job [] s c e = record {
    last = lane_of none [] s c;
    run = after_step [] (finished job) [] refl stays;
    no_queue = refl;
    no_drains = refl;
    all_done = sym (e ∙ append-nil c);
  }
  from_leaving job (j ∷ jobs) s c e =
      let rest = from_looking j jobs s c e in
      record {
        last = rest.last;
        run = after_step [] (finished job) [] refl rest.run;
        no_queue = rest.no_queue;
        no_drains = rest.no_drains;
        all_done = rest.all_done;
      }

  from_Shape :
      {queue : Option (List Job)} {tasks : List (Phase Job)} {pending : List Job} (s c : List Job)
      → Shape queue tasks pending
      → s ≡ c ++ pending
      → Finishes (lane_of queue tasks s c)
  unfolding drain_step
  from_Shape s c quiet e = record {
    last = lane_of none [] s c;
    run = stays;
    no_queue = refl;
    no_drains = refl;
    all_done = sym (e ∙ append-nil c);
  }
  from_Shape s c (looking job jobs) e = from_looking job jobs s c e
  from_Shape s c (leaving job jobs) e = from_leaving job jobs s c e
  from_Shape s c (working job jobs) e =
      let rest =
        from_leaving job jobs s (c ++ job ∷ []) (e ∙ sym (append_assoc c (job ∷ []) jobs)) in
      record {
        last = rest.last;
        run = after_step [] (running job) [] refl rest.run;
        no_queue = rest.no_queue;
        no_drains = rest.no_drains;
        all_done = rest.all_done;
      }

  -- From every state that the executor reaches, the tasks of each key can run to the end by
  -- themselves, and then every job submitted for the key is completed, in its order: none is stuck
  -- in a queue that no task serves.
  pub Reach-Finishes :
      {executor : Executor Job} → Reach executor → (key : ℕ) → Finishes (executor key)
  Reach-Finishes {executor} reached key =
      let h = Reach-IsSerial reached key in
      let lane = executor key in from_Shape lane.submitted lane.completed h.shape h.in_order
