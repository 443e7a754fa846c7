-- ===== src/Manager/Jobs/Single.antt =====
-- `WaitForSingle` (ManagerJobs.cpp), and the pair of calls that it shares with `Queue::Step`: a job is
-- scheduled, and its counter waited for.
pub mod Resumed
use nomad_tasks.Prelude.{◌>>=◌, ℕ, Bool, Option, some, none, update}
use nomad_tasks.Counter.{tiny_counter}
use nomad_tasks.Manager.{JobPriority, Job, Manager}
use nomad_tasks.Manager.Jobs.{
  Scheduled, ignored, queued, queue_full, Waited, schedule_job, wait_for_counter,
}

-- How the two calls end: `ScheduleJob` throws EX_JOB_QUEUE_FULL, or `WaitForCounter` ends so.
pub data Single : Type 0 where
  not_queued : Single
  then_waits : (waited : Waited) → Single

module _ {F : Type 0} where
  -- What follows `ScheduleJob` on thread `t`.
  unfoldable pub after_schedule : ℕ → ℕ → Scheduled → Manager F → Option (Single × Manager F)
  after_schedule t counter queue_full m = some (not_queued, m)
  after_schedule t counter ignored m = do
    r ← wait_for_counter t (some counter) 0 m
    some (then_waits r.0, r.1)
  after_schedule t counter queued m = do
    r ← wait_for_counter t (some counter) 0 m
    some (then_waits r.0, r.1)

  unfoldable pub schedule_and_wait :
      ℕ → JobPriority → Job F → ℕ → Manager F → Option (Single × Manager F)
  unfolding after_schedule
  schedule_and_wait t prio job counter m = do
    r ← schedule_job t prio job m
    after_schedule t counter r.0 r.1

  -- `WaitForSingle` on thread `t`: its counter, on the stack, is number `i`, and `old` is what stood
  -- where the flag of its slot is.
  unfoldable pub wait_for_single :
      ℕ → JobPriority → Job F → ℕ → (ℕ → Bool) → Manager F → Option (Single × Manager F)
  unfolding schedule_and_wait
  wait_for_single t prio info i old m =
      schedule_and_wait t prio (record info { counter = some i }) i
        (record m { counters = update m.counters i (tiny_counter old) })
