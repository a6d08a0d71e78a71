-- ===== src/Delivery/Examples.antt =====
-- Examples for the executor (src/app/domains/copy_trading/delivery.py).
use signalsync_be.Base.{ℕ, refl, []}
use signalsync_be.Delivery.{
  Lane, idle, submit, drain_step, ready, submits, drains_on, Executor, at_key, Reach, start, next,
  on_key,
}
use signalsync_be.Delivery.Serial.{IsSerial, Reach-IsSerial}
use signalsync_be.Delivery.Progress.{Finishes, Reach-Finishes}

-- Key 3 gets the jobs 7 and 8, and its task takes up the first.
abbrev one_job : Lane ℕ
one_job = submit 7 idle

abbrev two_jobs : Lane ℕ
two_jobs = submit 8 one_job

abbrev at_work : Lane ℕ
at_work = drain_step two_jobs [] ready []

abbrev with_one : Executor ℕ
with_one = at_key 3 one_job (λ key. idle)

abbrev with_two : Executor ℕ
with_two = at_key 3 two_jobs with_one

abbrev working_on : Executor ℕ
working_on = at_key 3 at_work with_two

with_one_reached : Reach with_one
with_one_reached = next start (on_key (λ key. idle) 3 (submits idle 7))

with_two_reached : Reach with_two
with_two_reached = next with_one_reached (on_key with_one 3 (submits one_job 8))

working_on_reached : Reach working_on
unfolding submit
working_on_reached = next with_two_reached (on_key with_two 3 (drains_on two_jobs [] ready [] refl))

Reach-IsSerial_example : IsSerial at_work
Reach-IsSerial_example = Reach-IsSerial working_on_reached 3

Reach-Finishes_example : Finishes at_work
Reach-Finishes_example = Reach-Finishes working_on_reached 3
