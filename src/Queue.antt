-- ===== src/Queue.antt =====
-- code/fiber/Queue.cpp and include/fiber/Queue.h: a queue of jobs that are scheduled one after the
-- other, each once the one before has ended. `Step` is cut where its fiber is left: what the program
-- does until the fiber is resumed is a parameter.
pub mod Executed
pub mod Tests
use nomad_tasks.Prelude.{◌>>=◌, ℕ, zero, suc, Bool, Option, some, none, List, [], ◌∷◌, ◌++◌, update}
use nomad_tasks.Counter.{counter}
use nomad_tasks.Manager.{JobPriority, Job, Manager}
use nomad_tasks.Manager.Jobs.{reached, leaves, too_many, wait_resumed}
use nomad_tasks.Manager.Jobs.Single.{Single, not_queued, then_waits, schedule_and_wait}

-- `Queue`, whose counter is a number among the manager's.
pub record Queue (F : Type 0) : Type 0 where
  pub default_priority : JobPriority
  pub counter : ℕ
  pub jobs : List (JobPriority × Job F)

-- How `Step` ends: it gives back true, with the job that it scheduled, or false, or it throws
-- EX_JOB_QUEUE_FULL or EX_COUNTER_WAITINGS_SLOTS_FULL.
pub data Stepped (F : Type 0) : Type 0 where
  ran : (prio : JobPriority) (job : Job F) → Stepped F
  no_jobs : Stepped F
  throws_queue_full : Stepped F
  throws_slots_full : Stepped F

-- The thread that a fiber is on, with the manager and the queue.
pub record At (F : Type 0) : Type 0 where
  pub thread : ℕ
  pub manager : Manager F
  pub queue : Queue F

module _ {F : Type 0} where
  -- The constructor. The counter is number `i`, and `old` is what stood where the flags of its slots
  -- are.
  pub new_queue : ℕ → (ℕ → Bool) → JobPriority → Manager F → Manager F × Queue F
  new_queue i old default_priority m = (
    record m { counters = update m.counters i (counter old) },
    record { default_priority = default_priority; counter = i; jobs = [] },
  )

  -- `Add(prio, job)`
  pub add : JobPriority → Job F → Queue F → Queue F
  add prio job q = record q {
    jobs = q.jobs ++ ((prio, record job { counter = some q.counter }) ∷ []);
  }

  -- `Add(job)`
  abbrev pub add_default : Job F → Queue F → Queue F
  unfolding add
  add_default job q = add q.default_priority job q

  -- `Add(prio, callable, args...)`, with the delegate that they make.
  pub add_call : JobPriority → F → Queue F → Queue F
  add_call prio delegate q = record q {
    jobs = q.jobs ++ ((prio, record { callback = some delegate; counter = some q.counter }) ∷ []);
  }

  -- `Add(callable, args...)`
  abbrev pub add_call_default : F → Queue F → Queue F
  unfolding add_call
  add_call_default delegate q = add_call q.default_priority delegate q

  -- The two `operator+=`, of which the second does what `Add` does.
  abbrev pub plus_equals : Job F → Queue F → Queue F
  unfolding add
  plus_equals job q = add q.default_priority job q

  -- `_queue.erase(_queue.begin())`
  abbrev pub erase_first : List (JobPriority × Job F) → List (JobPriority × Job F)
  erase_first [] = []
  erase_first (j ∷ js) = js

  abbrev pub erase_begin : At F → At F
  erase_begin s = record s { queue = record s.queue { jobs = erase_first s.queue.jobs } }

-- `away` is what the program does from the switch to another fiber on until the fiber is resumed, with
-- the thread that it is resumed on.
module _ {F : Type 0} (away : At F → At F) where
  -- `CleanupPreviousFiber`, when the fiber is back.
  abbrev pub come_back : At F → At F
  come_back s = let s' = away s in record s' { manager = wait_resumed s'.thread s'.manager }

  -- What follows `ScheduleJob`, or the wait, in `Step`.
  pub after_wait : JobPriority → Job F → Single → At F → Stepped F × At F
  after_wait prio job not_queued s = (throws_queue_full, s)
  after_wait prio job (then_waits reached) s = (ran prio job, erase_begin s)
  after_wait prio job (then_waits (leaves f)) s = (ran prio job, erase_begin (come_back s))
  after_wait prio job (then_waits too_many) s = (throws_slots_full, s)

  pub step_first : List (JobPriority × Job F) → At F → Option (Stepped F × At F)
  unfolding after_wait
  step_first [] s = some (no_jobs, s)
  step_first ((prio, job) ∷ js) s = do
    r ← schedule_and_wait s.thread prio job s.queue.counter s.manager
    some (after_wait prio job r.0 (record s { manager = r.1 }))

  -- `Step`
  pub step : At F → Option (Stepped F × At F)
  unfolding step_first
  step s = step_first s.queue.jobs s

  abbrev pub go_on :
      (At F → Option (List (Stepped F) × At F))
      → Stepped F × At F
      → Option (List (Stepped F) × At F)
  go_on rest (ran prio job, s) = do r ← rest s; some (ran prio job ∷ r.0, r.1)
  go_on rest (no_jobs, s) = some (no_jobs ∷ [], s)
  go_on rest (throws_queue_full, s) = some (throws_queue_full ∷ [], s)
  go_on rest (throws_slots_full, s) = some (throws_slots_full ∷ [], s)

  -- `Execute`, up to its `n`th step.
  pub execute : ℕ → At F → Option (List (Stepped F) × At F)
  unfolding step
  execute zero s = some ([], s)
  execute (suc n) s = step s >>= go_on (execute n)
