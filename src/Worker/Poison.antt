-- ===== src/Worker/Poison.antt =====
-- A message whose fields are no event (src/app/domains/copy_trading/worker_runtime.py).
use signalsync_be.Base.{◌≡◌, ◌≢◌, inl, inr, none, Option-cases, List, [], ◌∷◌, IsIn}
use signalsync_be.Worker.{Arrival, GroupState, WorkerConfig, process_message, claim_stale_messages}

module _ (config : WorkerConfig) where
  malformed_raises :
      (arrival : Arrival) (s : GroupState)
      → arrival.event_key ≡ none
      → (process_message config arrival s).0 ≢ none
  unfolding process_message
  malformed_raises arrival s h e = cc (rw h at e)

  -- A message whose fields are no event, among those claimed, makes `_claim_stale_messages` raise,
  -- whatever the other messages and their answers are.
  pub claim_stale_messages-malformed :
      (arrivals : List Arrival) (s : GroupState) (arrival : Arrival)
      → IsIn arrival arrivals
      → arrival.event_key ≡ none
      → (claim_stale_messages config arrivals s).0 ≢ none
  unfolding claim_stale_messages
  claim_stale_messages-malformed [] s a m h none_raised = elim m [ ]
  claim_stale_messages-malformed (x ∷ xs) s a m h none_raised =
      elim (Option-cases (process_message config x s).0) [
        | inr (error, e) ↦ cc (rw (e, claim_stale_messages) at none_raised)
        | inl e ↦ elim m [
          | inr q ↦
              claim_stale_messages-malformed xs (process_message config x s).1 a q h
                (rw (e, claim_stale_messages) at none_raised)
          | inl p ↦ malformed_raises x s (rw p at h) e
        ]
      ]
