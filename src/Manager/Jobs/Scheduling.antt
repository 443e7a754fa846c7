-- ===== src/Manager/Jobs/Scheduling.antt =====
-- `ScheduleJob` (ManagerJobs.cpp) against a bounded list of jobs.
use nomad_tasks.Prelude.{
  ℕ, ◌+◌, ◌^◌, ◌<◌, ◌≡◌, refl, ◌∙◌, Bool, Option, some, none, ap, update, ◌++◌, if◌then◌else◌,
}
use nomad_tasks.Mpmc.{Mpmc, enqueue}
use nomad_tasks.Mpmc.Fifo.{push, Valid, contents}
use nomad_tasks.Mpmc.Fifo.Refine.{enqueue_refines}
use nomad_tasks.Counter.{plus}
use nomad_tasks.Counter.Check.{swept, sleepers, modify_lem}
use nomad_tasks.Manager.{set_tls, JobPriority, high, normal, low, io, unnamed, Job, Manager}
use nomad_tasks.Manager.Jobs.{
  queued, queue_full, queue_of, set_queue, set_counter, count_up, put_job, schedule, schedule_job,
}

module _ {F : Type 0} where
  -- Counting a job leaves the queues alone.
  pub queue_of-count_up :
      (prio : JobPriority) (c : Option ℕ) (t : ℕ) (m : Manager F)
      → queue_of prio (count_up c t m) ≡ queue_of prio m
  unfolding count_up
  queue_of-count_up prio none t m = refl
  queue_of-count_up high (some i) t m = refl
  queue_of-count_up normal (some i) t m = refl
  queue_of-count_up low (some i) t m = refl
  queue_of-count_up io (some i) t m = refl
  queue_of-count_up (unnamed b) (some i) t m = refl

  pub schedule_job-enqueue :
      (t : ℕ) (prio : JobPriority) (job : Job F) (m : Manager F) (q q' : Mpmc (Job F)) (ok : Bool)
      → queue_of prio m ≡ some q
      → enqueue job q ≡ some (ok, q')
      → schedule_job t prio job m
        ≡ some ((if ok then queued else queue_full), set_queue prio q' (count_up job.counter t m))
  unfolding schedule_job schedule put_job
  schedule_job-enqueue t prio job m q q' ok named e =
      rw named (rw (queue_of-count_up prio job.counter t m ∙ named) (rw e refl))

  pub schedule_job-push :
      (t : ℕ) (prio : JobPriority) (job : Job F) (m : Manager F) (k : ℕ) (q : Mpmc (Job F))
      → queue_of prio m ≡ some q
      → Valid k q
      → q.enqueue_pos + 2 ^ k < 2 ^ 63
      → let (ok, jobs) = push (2 ^ k) job (contents k q) in
        (q' : Mpmc (Job F)) × (schedule_job t prio job m
          ≡ some
              ((if ok then queued else queue_full), set_queue prio q' (count_up job.counter t m)))
        × Valid k q'
        × (contents k q' ≡ jobs)
  schedule_job-push t prio job m k q named v small =
      let (q', e, v', c) = enqueue_refines k q v small job in
      (
        q',
        schedule_job-enqueue t prio job m q q' (push (2 ^ k) job (contents k q)).0 named e,
        v',
        c,
      )

  -- What counting a job comes to: its counter, if it has one, is one higher modulo 2 ^ 32, the fibers
  -- that wait there for that value are made ready on thread `t`, in the order of the slots, and their
  -- slots taken back.
  abbrev pub tallied : Option ℕ → ℕ → Manager F → Manager F
  tallied none t m = m
  tallied (some i) t m =
      let c = m.counters i in
      let up = plus c.value 1 in
      let ready = (m.tls t).ready_fibers ++ sleepers c up c.num_waiting_fibers 0 in
      set_tls t (record (m.tls t) { ready_fibers = ready })
        (record m { counters = update m.counters i (swept up (record c { value = up })) })

  count_up_lem : (c : Option ℕ) (t : ℕ) (m : Manager F) → count_up c t m ≡ tallied c t m
  unfolding count_up
  count_up_lem none t m = refl
  count_up_lem (some i) t m =
      ap (λ r. set_counter t i r.1 m) (modify_lem 1 (m.counters i) (m.tls t).ready_fibers).0

  -- Where the queue of the job's priority is at rest, with its positions below the wrap,
  -- `ScheduleJob` appends the job to that queue if there is room; if not, the queue keeps its items. In
  -- both cases the job is counted: its counter, if it has one, is one higher modulo 2 ^ 32, the fibers
  -- that wait there for that value are made ready, and their slots taken back. Nothing else changes.
  pub schedule_job_refines :
      (t : ℕ) (prio : JobPriority) (job : Job F) (m : Manager F) (k : ℕ) (q : Mpmc (Job F))
      → queue_of prio m ≡ some q
      → Valid k q
      → q.enqueue_pos + 2 ^ k < 2 ^ 63
      → let (ok, jobs) = push (2 ^ k) job (contents k q) in
        (q' : Mpmc (Job F)) × (schedule_job t prio job m
          ≡ some ((if ok then queued else queue_full), set_queue prio q' (tallied job.counter t m)))
        × Valid k q'
        × (contents k q' ≡ jobs)
  schedule_job_refines t prio job m k q named v small =
      let (q', e, v', c) = schedule_job-push t prio job m k q named v small in
      let ok = (push (2 ^ k) job (contents k q)).0 in
      (
        q',
        e
            ∙ ap (λ x. some ((if ok then queued else queue_full), set_queue prio q' x))
                (count_up_lem job.counter t m),
        v',
        c,
      )
