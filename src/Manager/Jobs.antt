-- ===== src/Manager/Jobs.antt =====
-- Jobs and waiting (ManagerJobs.cpp, Job.cpp): `ScheduleJob`, `GetNextJob`, `WaitForCounter` and
-- `JobInfo::Execute`, cut where they switch to another fiber: what follows the switch runs when, and
-- where, the fiber is resumed.
pub mod Scheduling
pub mod Choosing
pub mod Waiting
pub mod Kept
pub mod OnlyQueues
pub mod Flag
pub mod Single
use nomad_tasks.Prelude.{
  ◌>>=◌, ℕ, ◌+◌, Bool, true, false, Option, some, none, List, [], ◌∷◌, if◌then◌else◌, update, ◌==◌,
}
use nomad_tasks.Mpmc.{Mpmc, enqueue, dequeue}
use nomad_tasks.Counter.{
  Counter, Ready, Waiter, Added, done_already, waiting, slots_full, increment, decrement,
  add_waiting_fiber,
}
use nomad_tasks.Manager.{
  JobPriority, high, normal, low, io, unnamed, Job, Tls, Manager, nowhere, to_pool, to_waiting,
  set_tls,
}
use nomad_tasks.Manager.Fibers.{find_free_fiber, cleanup_previous_fiber}

-- How `ScheduleJob` ends; `queue_full` is EX_JOB_QUEUE_FULL.
pub data Scheduled : Type 0 where
  ignored : Scheduled
  queued : Scheduled
  queue_full : Scheduled

-- How `GetNextJob` ends, or that it switches to the ready fiber `fiber`.
pub data Next (F : Type 0) : Type 0 where
  found : (job : Job F) → Next F
  nothing : Next F
  resumes : (fiber : ℕ) → Next F

-- How `WaitForCounter` ends, or that it switches to the idle fiber `fiber`; `too_many` is
-- EX_COUNTER_WAITINGS_SLOTS_FULL.
pub data Waited : Type 0 where
  reached : Waited
  leaves : (fiber : ℕ) → Waited
  too_many : Waited

abbrev pub behind : Ready → Option (ℕ × List Ready) → Option (ℕ × List Ready)
behind e none = none
behind e (some (f, r)) = some (f, e ∷ r)

-- The search among the ready fibers: the first whose flag is set, and the list without it.
unfoldable pub take_ready : (ℕ → Bool) → List Ready → Option (ℕ × List Ready)
take_ready stored [] = none
take_ready stored ((f, flag) ∷ r) =
    let later = take_ready stored r in if stored flag then some (f, r) else behind (f, flag) later

-- The record of a thread that leaves its fiber to the pool for `fiber`.
abbrev pub resuming : ℕ → List Ready → Tls → Tls
resuming fiber ready l = record l {
  ready_fibers = ready;
  previous_fiber = l.current_fiber;
  previous_destination = to_pool;
  current_fiber = fiber;
}

-- The record of a thread that leaves its fiber waiting with the given flag.
abbrev pub leaving : ℕ → Tls → Tls
leaving flag l = record l {
  previous_fiber = l.current_fiber;
  previous_destination = to_waiting;
  previous_stored = flag;
}

module _ {F : Type 0} where
  -- `GetQueueByPriority`
  abbrev pub queue_of : JobPriority → Manager F → Option (Mpmc (Job F))
  queue_of high m = some m.high_priority_queue
  queue_of normal m = some m.normal_priority_queue
  queue_of low m = some m.low_priority_queue
  queue_of io m = some m.io_queue
  queue_of (unnamed b) m = none

  abbrev pub set_queue : JobPriority → Mpmc (Job F) → Manager F → Manager F
  set_queue high q m = record m { high_priority_queue = q }
  set_queue normal q m = record m { normal_priority_queue = q }
  set_queue low q m = record m { low_priority_queue = q }
  set_queue io q m = record m { io_queue = q }
  set_queue (unnamed b) q m = m

  -- `Increment()` and `Decrement()` of counter `i` on thread `t`.
  abbrev pub set_counter : ℕ → ℕ → Counter × List Ready → Manager F → Manager F
  set_counter t i s m =
      set_tls t (record (m.tls t) { ready_fibers = s.1 })
        (record m { counters = update m.counters i s.0 })

  unfoldable pub count_up : Option ℕ → ℕ → Manager F → Manager F
  count_up none t m = m
  count_up (some i) t m = set_counter t i (increment 1 (m.counters i, (m.tls t).ready_fibers)).1 m

  unfoldable pub count_down : Option ℕ → ℕ → Manager F → Manager F
  count_down none t m = m
  count_down (some i) t m = set_counter t i (decrement 1 (m.counters i, (m.tls t).ready_fibers)).1 m

  -- `ScheduleJob` on thread `t`.
  pub put_job :
      JobPriority → Job F → Option (Mpmc (Job F)) → Manager F → Option (Scheduled × Manager F)
  put_job prio job none m = some (ignored, m)
  put_job prio job (some q) m = do
    r ← enqueue job q
    some ((if r.0 then queued else queue_full), set_queue prio r.1 m)

  pub schedule :
      ℕ → JobPriority → Job F → Option (Mpmc (Job F)) → Manager F → Option (Scheduled × Manager F)
  unfolding put_job count_up
  schedule t prio job none m = some (ignored, m)
  schedule t prio job (some q) m =
      let m' = count_up job.counter t m in put_job prio job (queue_of prio m') m'

  pub schedule_job : ℕ → JobPriority → Job F → Manager F → Option (Scheduled × Manager F)
  unfolding schedule
  schedule_job t prio job m = schedule t prio job (queue_of prio m) m

  -- `GetNextJob` on thread `t`, from its end to its start.
  abbrev pub next_of : Option (Job F) → Next F
  next_of (some job) = found job
  next_of none = nothing

  abbrev pub next_low : Manager F → Option (Next F × Manager F)
  next_low m = do
    r ← dequeue m.low_priority_queue
    some (next_of r.0, record m { low_priority_queue = r.1 })

  abbrev pub or_low : Option (Job F) → Manager F → Option (Next F × Manager F)
  or_low (some job) m = some (found job, m)
  or_low none m = next_low m

  pub normal_or_low : Manager F → Option (Next F × Manager F)
  normal_or_low m = do
    r ← dequeue m.normal_priority_queue
    or_low r.0 (record m { normal_priority_queue = r.1 })

  pub or_ready : ℕ → Option (ℕ × List Ready) → Manager F → Option (Next F × Manager F)
  unfolding normal_or_low
  or_ready t (some x) m = some (resumes x.0, set_tls t (resuming x.0 x.1 (m.tls t)) m)
  or_ready t none m = normal_or_low m

  pub after_high : ℕ → Option (Job F) → Manager F → Option (Next F × Manager F)
  unfolding or_ready take_ready
  after_high t (some job) m = some (found job, m)
  after_high t none m = or_ready t (take_ready m.stored (m.tls t).ready_fibers) m

  abbrev pub next_io : Manager F → Option (Next F × Manager F)
  next_io m = do r ← dequeue m.io_queue; some (next_of r.0, record m { io_queue = r.1 })

  abbrev pub next_worker : ℕ → Manager F → Option (Next F × Manager F)
  unfolding after_high
  next_worker t m = do
    r ← dequeue m.high_priority_queue
    after_high t r.0 (record m { high_priority_queue = r.1 })

  pub get_next_job : ℕ → Manager F → Option (Next F × Manager F)
  unfolding next_worker
  get_next_job t m = if (m.tls t).is_io then next_io m else next_worker t m

  -- The rest of `GetNextJob` once its fiber is resumed; `t` is still the thread it began on.
  pub next_resumed : ℕ → Manager F → Option (Next F × Manager F)
  unfolding normal_or_low
  next_resumed t m = normal_or_low (cleanup_previous_fiber t m)

  -- `WaitForCounter`, not blocking, on thread `t`: `new atomic_bool(false)`, then what follows
  -- `AddWaitingFiber`. `none` means that no fiber is idle, as in `find_free_fiber`.
  abbrev pub new_flag : Manager F → Manager F
  new_flag m = record m {
    stored = update m.stored m.next_stored false;
    next_stored = m.next_stored + 1;
  }

  abbrev pub go_idle : ℕ → Manager F → Option (Waited × Manager F)
  go_idle t m = do
    r ← find_free_fiber m
    some (leaves r.0, set_tls t (record (r.1.tls t) { current_fiber = r.0 }) r.1)

  pub after_add : ℕ → ℕ → Added → Manager F → Option (Waited × Manager F)
  after_add t flag done_already m = some (reached, m)
  after_add t flag slots_full m = some (too_many, m)
  after_add t flag waiting m = go_idle t (set_tls t (leaving flag (m.tls t)) m)

  pub wait_in : ℕ → ℕ → ℕ → Manager F → Option (Waited × Manager F)
  unfolding after_add
  wait_in t i target m =
      let w : Waiter = record {
        fiber = (m.tls t).current_fiber;
        stored = m.next_stored;
        target = target;
      } in
      let added = add_waiting_fiber w (m.counters i) in
      after_add t m.next_stored added.0
        (record (new_flag m) { counters = update m.counters i added.1 })

  pub wait_for_counter : ℕ → Option ℕ → ℕ → Manager F → Option (Waited × Manager F)
  unfolding wait_in
  wait_for_counter t none target m = some (reached, m)
  wait_for_counter t (some i) target m =
      if (m.counters i).value == target then some (reached, m) else wait_in t i target m

  -- The rest of `WaitForCounter` once the fiber is resumed, on thread `u`.
  abbrev pub wait_resumed : ℕ → Manager F → Manager F
  wait_resumed u m = cleanup_previous_fiber u m

  -- `JobInfo::Execute` begun on thread `t`. The call is a parameter, which gives the thread that the
  -- fiber is on when the call comes back.
  unfoldable pub execute :
      (F → ℕ → Manager F → ℕ × Manager F) → Job F → ℕ → Manager F → ℕ × Manager F
  unfolding count_down
  execute call job t m = let r = called job.callback in (r.0, count_down job.counter r.0 r.1)
    where
      called : Option F → ℕ × Manager F
      called none = (t, m)
      called (some f) = call f t m
