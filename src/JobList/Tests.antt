-- ===== src/JobList/Tests.antt =====
-- A list of three jobs on a manager of two threads.
use nomad_tasks.Prelude.{ℕ, ◌≡◌, refl, true, false, some, [], ◌∷◌, arith}
use nomad_tasks.Counter.{Counter, counter, new_counter}
use nomad_tasks.Manager.{normal, Manager}
use nomad_tasks.Manager.Jobs.{leaves}
use nomad_tasks.Manager.Tests.{manager}
use nomad_tasks.JobList.{JobList, wait}
use nomad_tasks.JobList.Ended.{Ends, wait-Ends}

abbrev at_three : Counter
at_three = record (counter (λ _. false)) { value = 3 }

abbrev busy : Manager ℕ
busy = record manager { counters = λ _. at_three }

abbrev three_jobs : JobList
three_jobs = record { default_priority = normal; counter = 0 }

-- Thread 1 waits for all; the jobs end on threads 2, 1 and 2.
wait-Ends_example :
    (g : ℕ) × (m' : Manager ℕ) × (wait 1 0 three_jobs busy ≡ some (leaves g, m'))
    × (busy.idle_fibers g ≡ true)
    × Ends three_jobs 1 0 0 2 (2 ∷ 1 ∷ []) busy m'
unfolding new_counter
wait-Ends_example =
    wait-Ends three_jobs 1 0 5 0 2 (2 ∷ 1 ∷ []) busy (omega arith) (λ a h. absurd (omega arith))
      refl refl (omega arith) (omega arith) refl
