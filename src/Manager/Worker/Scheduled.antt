-- ===== src/Manager/Worker/Scheduled.antt =====
-- A job that is scheduled on a manager whose queues are empty (ManagerJobs.cpp).
use nomad_tasks.Prelude.{
  ℕ, ◌+◌, ◌^◌, ◌<◌, ◌≡◌, refl, Bool, true, false, some, List, [], ◌∷◌, arith, pow_pos,
}
use nomad_tasks.Mpmc.{Mpmc, enqueue}
use nomad_tasks.Mpmc.Position.{enqueue-enqueue_pos}
use nomad_tasks.Mpmc.Fifo.{Valid, contents}
use nomad_tasks.Mpmc.Fifo.Refine.{enqueue_refines}
use nomad_tasks.Manager.{JobPriority, high, normal, low, io, unnamed, Job, Manager}
use nomad_tasks.Manager.Jobs.{queued, count_up, schedule_job}
use nomad_tasks.Manager.Jobs.OnlyQueues.{with_four}
use nomad_tasks.Manager.Jobs.Scheduling.{schedule_job-enqueue}
use nomad_tasks.Manager.Jobs.Choosing.Order.{Sizes, Holds, Small}
use nomad_tasks.Manager.Jobs.Single.Resumed.{push-room, with_tiny}
use nomad_tasks.Manager.Worker.Begun.{counted_in}
use nomad_tasks.Manager.Worker.GivenBack.{waited_job}

-- The priorities whose jobs a worker takes.
abbrev pub is_worker : JobPriority → Bool
is_worker high = true
is_worker normal = true
is_worker low = true
is_worker _ = false

module _ {F : Type 0} where
  -- The positions are below the wrap, and are so once one job more has been put in.
  pub record Ample (z : Sizes) (m : Manager F) : Type 0 where
    pub high_ample : m.high_priority_queue.enqueue_pos + 1 + 2 ^ z.high < 2 ^ 63
    pub normal_ample : m.normal_priority_queue.enqueue_pos + 1 + 2 ^ z.normal < 2 ^ 63
    pub low_ample : m.low_priority_queue.enqueue_pos + 1 + 2 ^ z.low < 2 ^ 63
    pub io_ample : m.io_queue.enqueue_pos + 1 + 2 ^ z.io < 2 ^ 63

  Ample-Small : (z : Sizes) (m : Manager F) → Ample z m → Small z m
  Ample-Small z m a = record {
    high_small = let b = a.high_ample in omega arith;
    normal_small = let b = a.normal_ample in omega arith;
    low_small = let b = a.low_ample in omega arith;
    io_small = let b = a.io_ample in omega arith;
  }

  -- The only job, in the list of its priority.
  abbrev pub only : JobPriority → Job F → List (Job F) × List (Job F) × List (Job F)
  only high job = (job ∷ [], [], [])
  only normal job = ([], job ∷ [], [])
  only low job = ([], [], job ∷ [])
  only _ job = ([], [], [])

  -- `enqueue` of the job leaves it alone in the queue.
  abbrev PutIn : ℕ → Job F → Mpmc (Job F) → Type 0
  PutIn k job q =
      (q' : Mpmc (Job F)) × (enqueue job q ≡ some (true, q'))
      × Valid k q'
      × (contents k q' ≡ job ∷ [])
      × (q'.enqueue_pos + 2 ^ k < 2 ^ 63)

  enqueue-PutIn :
      (k : ℕ) (job : Job F) (q : Mpmc (Job F))
      → Valid k q
      → contents k q ≡ []
      → q.enqueue_pos + 1 + 2 ^ k < 2 ^ 63
      → PutIn k job q
  enqueue-PutIn k job q v empty ample =
      let (q', e, v', c) =
        rw (empty, push-room (2 ^ k) job [] (pow_pos k)) at
          (enqueue_refines k q v (omega arith) job) in
      let pos = enqueue-enqueue_pos q q' job true e in (q', e, v', c, omega arith)

  -- `ScheduleJob` leaves the job alone in the queues.
  abbrev pub Put :
      (z : Sizes) (t i : ℕ) (old : ℕ → Bool) (prio : JobPriority) (f : F) (m : Manager F) → Type 0
  Put z t i old prio f m =
      let job = waited_job f i in
      (h n l io : Mpmc (Job F)) × (schedule_job t prio job (with_tiny i old m)
        ≡ some (queued, counted_in t i old h n l io m))
      × Holds z (with_four h n l io m) (only prio job).0 (only prio job).1 (only prio job).2 []
      × Small z (with_four h n l io m)

  pub schedule_job-Put :
      (z : Sizes) (t i : ℕ) (old : ℕ → Bool) (prio : JobPriority) (f : F) (m : Manager F)
      → is_worker prio ≡ true
      → Ample z m
      → Holds z m [] [] [] []
      → Put z t i old prio f m
  unfolding count_up
  schedule_job-Put z t i old high f m worker a v =
      let (q, e, valid, jobs, small) =
        enqueue-PutIn z.high (waited_job f i) m.high_priority_queue v.high_valid v.high_jobs
          a.high_ample in
      let s = Ample-Small z m a in
      (
        q,
        m.normal_priority_queue,
        m.low_priority_queue,
        m.io_queue,
        schedule_job-enqueue t high (waited_job f i) (with_tiny i old m) m.high_priority_queue q
            true refl e,
        record {
          high_valid = valid;
          normal_valid = v.normal_valid;
          low_valid = v.low_valid;
          io_valid = v.io_valid;
          high_jobs = jobs;
          normal_jobs = v.normal_jobs;
          low_jobs = v.low_jobs;
          io_jobs = v.io_jobs;
        },
        record {
          high_small = small;
          normal_small = s.normal_small;
          low_small = s.low_small;
          io_small = s.io_small;
        },
      )
  schedule_job-Put z t i old normal f m worker a v =
      let (q, e, valid, jobs, small) =
        enqueue-PutIn z.normal (waited_job f i) m.normal_priority_queue v.normal_valid v.normal_jobs
          a.normal_ample in
      let s = Ample-Small z m a in
      (
        m.high_priority_queue,
        q,
        m.low_priority_queue,
        m.io_queue,
        schedule_job-enqueue t normal (waited_job f i) (with_tiny i old m) m.normal_priority_queue q
            true refl e,
        record {
          high_valid = v.high_valid;
          normal_valid = valid;
          low_valid = v.low_valid;
          io_valid = v.io_valid;
          high_jobs = v.high_jobs;
          normal_jobs = jobs;
          low_jobs = v.low_jobs;
          io_jobs = v.io_jobs;
        },
        record {
          high_small = s.high_small;
          normal_small = small;
          low_small = s.low_small;
          io_small = s.io_small;
        },
      )
  schedule_job-Put z t i old low f m worker a v =
      let (q, e, valid, jobs, small) =
        enqueue-PutIn z.low (waited_job f i) m.low_priority_queue v.low_valid v.low_jobs
          a.low_ample in
      let s = Ample-Small z m a in
      (
        m.high_priority_queue,
        m.normal_priority_queue,
        q,
        m.io_queue,
        schedule_job-enqueue t low (waited_job f i) (with_tiny i old m) m.low_priority_queue q true
            refl e,
        record {
          high_valid = v.high_valid;
          normal_valid = v.normal_valid;
          low_valid = valid;
          io_valid = v.io_valid;
          high_jobs = v.high_jobs;
          normal_jobs = v.normal_jobs;
          low_jobs = jobs;
          io_jobs = v.io_jobs;
        },
        record {
          high_small = s.high_small;
          normal_small = s.normal_small;
          low_small = small;
          io_small = s.io_small;
        },
      )
  schedule_job-Put z t i old io f m worker a v = absurd (ground arith)
  schedule_job-Put z t i old (unnamed b) f m worker a v = absurd (ground arith)
