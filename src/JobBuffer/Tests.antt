-- ===== src/JobBuffer/Tests.antt =====
-- Delegate 5 is scheduled, taken by worker 1 and executed.
use nomad_tasks.Prelude.{ℕ, ◌≡◌, refl, none, List, [], ◌∷◌}
use nomad_tasks.JobBuffer.{Op, destroyed, called, schedule, take, execute, run, start}
use nomad_tasks.JobBuffer.Late.{AllLate, called_late}

abbrev one_job : List (Op ℕ)
one_job = schedule 0 5 none ∷ take 1 0 ∷ execute 1 ∷ []

one_job_events : (run one_job start).events ≡ called 5 ∷ destroyed 5 ∷ []
unfolding run
one_job_events = refl

called_late_example : AllLate (run one_job start).events
called_late_example = called_late one_job
