-- ===== src/JobList.antt =====
-- code/fiber/List.cpp and include/fiber/List.h: jobs that are scheduled at once and share a counter, by
-- which all of them are waited for.
pub mod Ended
pub mod Tests
use nomad_tasks.Prelude.{ℕ, Bool, Option, some, none, update}
use nomad_tasks.Counter.{counter}
use nomad_tasks.Manager.{JobPriority, Job, Manager}
use nomad_tasks.Manager.Jobs.{Scheduled, Waited, schedule_job, wait_for_counter}

-- `List`, whose counter is a number among the manager's.
pub record JobList : Type 0 where
  pub default_priority : JobPriority
  pub counter : ℕ

module _ {F : Type 0} where
  -- The constructor. The counter is number `i`, and `old` is what stood where the flags of its slots
  -- are.
  abbrev pub new_list : ℕ → (ℕ → Bool) → JobPriority → Manager F → Manager F × JobList
  new_list i old default_priority m = (
    record m { counters = update m.counters i (counter old) },
    record { default_priority = default_priority; counter = i },
  )

  -- `Add(prio, job)` on thread `t`.
  unfoldable pub add :
      ℕ → JobPriority → Job F → JobList → Manager F → Option (Scheduled × Manager F)
  add t prio job l m = schedule_job t prio (record job { counter = some l.counter }) m

  -- `Add(job)`
  abbrev pub add_default : ℕ → Job F → JobList → Manager F → Option (Scheduled × Manager F)
  unfolding add
  add_default t job l m = add t l.default_priority job l m

  -- `Add(prio, callable, args...)`, with the delegate that they make.
  abbrev pub add_call : ℕ → JobPriority → F → JobList → Manager F → Option (Scheduled × Manager F)
  add_call t prio delegate l m =
      schedule_job t prio (record { callback = some delegate; counter = some l.counter }) m

  -- `Add(callable, args...)`
  abbrev pub add_call_default : ℕ → F → JobList → Manager F → Option (Scheduled × Manager F)
  add_call_default t delegate l m = add_call t l.default_priority delegate l m

  -- `operator+=`
  abbrev pub plus_equals : ℕ → Job F → JobList → Manager F → Option (Scheduled × Manager F)
  unfolding add
  plus_equals t job l m = add t l.default_priority job l m

  -- `Wait` on thread `t`, as far as `WaitForCounter` goes.
  unfoldable pub wait : ℕ → ℕ → JobList → Manager F → Option (Waited × Manager F)
  wait t target l m = wait_for_counter t (some l.counter) target m
