-- ===== src/Manager/Jobs/Choosing/Order.antt =====
-- `GetNextJob` (ManagerJobs.cpp) against the order of priorities.
use nomad_tasks.Prelude.{
  ◌>>=◌, ℕ, ◌+◌, ◌^◌, ◌<◌, ◌≡◌, refl, Bool, true, false, Option, some, none, List, [], ◌∷◌,
  Bool-cases, inl, inr,
}
use nomad_tasks.Mpmc.{Mpmc, dequeue}
use nomad_tasks.Mpmc.Fifo.{pop, Valid, contents}
use nomad_tasks.Mpmc.Fifo.Refine.{dequeue_refines}
use nomad_tasks.Counter.{Ready}
use nomad_tasks.Manager.{Job, Manager, set_tls}
use nomad_tasks.Manager.Jobs.{
  Next, found, resumes, take_ready, next_of, next_low, normal_or_low, or_ready, after_high, next_io,
  next_worker, get_next_job, resuming,
}

-- The queues' sizes, as powers of two.
pub record Sizes : Type 0 where
  pub high : ℕ
  pub normal : ℕ
  pub low : ℕ
  pub io : ℕ

module _ {F : Type 0} where
  -- The choice among the queues' jobs and a fiber that can be resumed: a thread for input and output
  -- takes nothing but such jobs; every other takes, in this order, a job of high priority, the fiber,
  -- a job of normal and one of low priority. With it, the lists of jobs left.
  unfoldable pub choose :
      Bool
      → Option ℕ
      → (high normal low io : List (Job F))
      → Next F × (List (Job F) × List (Job F) × List (Job F) × List (Job F))
  choose true ready h n l i = (next_of (pop i).0, (h, n, l, (pop i).1))
  choose false ready (job ∷ h) n l i = (found job, (h, n, l, i))
  choose false (some f) [] n l i = (resumes f, ([], n, l, i))
  choose false none [] (job ∷ n) l i = (found job, ([], n, l, i))
  choose false none [] [] l i = (next_of (pop l).0, ([], [], (pop l).1, i))

  -- The four queues are at rest with the given jobs.
  pub record Holds (z : Sizes) (m : Manager F) (h n l i : List (Job F)) : Type 0 where
    pub high_valid : Valid z.high m.high_priority_queue
    pub normal_valid : Valid z.normal m.normal_priority_queue
    pub low_valid : Valid z.low m.low_priority_queue
    pub io_valid : Valid z.io m.io_queue
    pub high_jobs : contents z.high m.high_priority_queue ≡ h
    pub normal_jobs : contents z.normal m.normal_priority_queue ≡ n
    pub low_jobs : contents z.low m.low_priority_queue ≡ l
    pub io_jobs : contents z.io m.io_queue ≡ i

  -- The positions are below the wrap of the signed differences.
  pub record Small (z : Sizes) (m : Manager F) : Type 0 where
    pub high_small : m.high_priority_queue.enqueue_pos + 2 ^ z.high < 2 ^ 63
    pub normal_small : m.normal_priority_queue.enqueue_pos + 2 ^ z.normal < 2 ^ 63
    pub low_small : m.low_priority_queue.enqueue_pos + 2 ^ z.low < 2 ^ 63
    pub io_small : m.io_queue.enqueue_pos + 2 ^ z.io < 2 ^ 63

  -- The call comes to an end with the choice `x` and leaves the given jobs.
  abbrev pub Serves :
      Sizes → Option (Next F × Manager F) → Next F → (h n l i : List (Job F)) → Type 0
  Serves z r x h n l i = (m' : Manager F) × (r ≡ some (x, m')) × Holds z m' h n l i

  abbrev Dequeued : ℕ → Mpmc (Job F) → List (Job F) → Type 0
  Dequeued k q jobs =
      (q' : Mpmc (Job F)) × (dequeue q ≡ some ((pop jobs).0, q'))
      × Valid k q'
      × (contents k q' ≡ (pop jobs).1)

  dequeued :
      (k : ℕ) (q : Mpmc (Job F)) (jobs : List (Job F))
      → Valid k q
      → q.enqueue_pos + 2 ^ k < 2 ^ 63
      → contents k q ≡ jobs
      → Dequeued k q jobs
  dequeued k q jobs v small e = rw (← e) (dequeue_refines k q v small)

  module _ (z : Sizes) (m : Manager F) (h n l i : List (Job F)) where
    low-Serves :
        m.low_priority_queue.enqueue_pos + 2 ^ z.low < 2 ^ 63
        → Holds z m h n l i
        → Serves z (next_low m) (next_of (pop l).0) h n (pop l).1 i
    low-Serves small v =
        let (q, e, v', c) = dequeued z.low m.low_priority_queue l v.low_valid small v.low_jobs in
        (
          record m { low_priority_queue = q },
          rw e refl,
          record {
            high_valid = v.high_valid;
            normal_valid = v.normal_valid;
            low_valid = v';
            io_valid = v.io_valid;
            high_jobs = v.high_jobs;
            normal_jobs = v.normal_jobs;
            low_jobs = c;
            io_jobs = v.io_jobs;
          },
        )

    io-Serves :
        m.io_queue.enqueue_pos + 2 ^ z.io < 2 ^ 63
        → Holds z m h n l i
        → Serves z (next_io m) (next_of (pop i).0) h n l (pop i).1
    io-Serves small v =
        let (q, e, v', c) = dequeued z.io m.io_queue i v.io_valid small v.io_jobs in
        (
          record m { io_queue = q },
          rw e refl,
          record {
            high_valid = v.high_valid;
            normal_valid = v.normal_valid;
            low_valid = v.low_valid;
            io_valid = v';
            high_jobs = v.high_jobs;
            normal_jobs = v.normal_jobs;
            low_jobs = v.low_jobs;
            io_jobs = c;
          },
        )

    normal-popped :
        m.normal_priority_queue.enqueue_pos + 2 ^ z.normal < 2 ^ 63
        → Holds z m h n l i
        → (q : Mpmc (Job F)) × (dequeue m.normal_priority_queue ≡ some ((pop n).0, q))
          × Holds z (record m { normal_priority_queue = q }) h (pop n).1 l i
    normal-popped small v =
        let (q, e, v', c) =
          dequeued z.normal m.normal_priority_queue n v.normal_valid small v.normal_jobs in
        (
          q,
          e,
          record {
            high_valid = v.high_valid;
            normal_valid = v';
            low_valid = v.low_valid;
            io_valid = v.io_valid;
            high_jobs = v.high_jobs;
            normal_jobs = c;
            low_jobs = v.low_jobs;
            io_jobs = v.io_jobs;
          },
        )

    pub high-popped :
        m.high_priority_queue.enqueue_pos + 2 ^ z.high < 2 ^ 63
        → Holds z m h n l i
        → (q : Mpmc (Job F)) × (dequeue m.high_priority_queue ≡ some ((pop h).0, q))
          × Holds z (record m { high_priority_queue = q }) (pop h).1 n l i
    high-popped small v =
        let (q, e, v', c) =
          dequeued z.high m.high_priority_queue h v.high_valid small v.high_jobs in
        (
          q,
          e,
          record {
            high_valid = v';
            normal_valid = v.normal_valid;
            low_valid = v.low_valid;
            io_valid = v.io_valid;
            high_jobs = c;
            normal_jobs = v.normal_jobs;
            low_jobs = v.low_jobs;
            io_jobs = v.io_jobs;
          },
        )

  -- What a choice comes to.
  abbrev pub Chosen :
      Sizes
      → Option (Next F × Manager F)
      → Next F × (List (Job F) × List (Job F) × List (Job F) × List (Job F))
      → Type 0
  Chosen z r c = Serves z r c.0 c.1.0 c.1.1 c.1.2 c.1.3

  normal-Chosen :
      (z : Sizes) (m : Manager F) (n l i : List (Job F))
      → m.normal_priority_queue.enqueue_pos + 2 ^ z.normal < 2 ^ 63
      → m.low_priority_queue.enqueue_pos + 2 ^ z.low < 2 ^ 63
      → Holds z m [] n l i
      → Chosen z (normal_or_low m) (choose false none [] n l i)
  unfolding normal_or_low choose pop
  normal-Chosen z m [] l i small small' v =
      let (q, e, w) = normal-popped z m [] [] l i small v in
      rw e (low-Serves z (record m { normal_priority_queue = q }) [] [] l i small' w)
  normal-Chosen z m (job ∷ n) l i small small' v =
      let (q, e, w) = normal-popped z m [] (job ∷ n) l i small v in
      (record m { normal_priority_queue = q }, rw e refl, w)

  -- The fiber that a thread can resume.
  abbrev pub resumable : ℕ → Manager F → Option ℕ
  resumable t m = take_ready m.stored (m.tls t).ready_fibers >>= λ x. some x.0

  ready-Chosen :
      (t : ℕ) (z : Sizes) (m : Manager F) (n l i : List (Job F)) (r : Option (ℕ × List Ready))
      → m.normal_priority_queue.enqueue_pos + 2 ^ z.normal < 2 ^ 63
      → m.low_priority_queue.enqueue_pos + 2 ^ z.low < 2 ^ 63
      → Holds z m [] n l i
      → Chosen z (or_ready t r m) (choose false (r >>= λ x. some x.0) [] n l i)
  unfolding or_ready choose
  ready-Chosen t z m n l i none small small' v = normal-Chosen z m n l i small small' v
  ready-Chosen t z m n l i (some (f, rest)) small small' v = (
    set_tls t (resuming f rest (m.tls t)) m,
    refl,
    record {
      high_valid = v.high_valid;
      normal_valid = v.normal_valid;
      low_valid = v.low_valid;
      io_valid = v.io_valid;
      high_jobs = v.high_jobs;
      normal_jobs = v.normal_jobs;
      low_jobs = v.low_jobs;
      io_jobs = v.io_jobs;
    },
  )

  worker-Chosen :
      (t : ℕ) (z : Sizes) (m : Manager F) (h n l i : List (Job F))
      → Small z m
      → Holds z m h n l i
      → Chosen z (next_worker t m) (choose false (resumable t m) h n l i)
  unfolding after_high choose pop
  worker-Chosen t z m [] n l i small v =
      let (q, e, w) = high-popped z m [] n l i small.high_small v in
      rw e (
        ready-Chosen t z (record m { high_priority_queue = q }) n l i
          (take_ready m.stored (m.tls t).ready_fibers) small.normal_small small.low_small w)
  worker-Chosen t z m (job ∷ h) n l i small v =
      let (q, e, w) = high-popped z m (job ∷ h) n l i small.high_small v in
      (record m { high_priority_queue = q }, rw e refl, w)

  -- `GetNextJob` on queues at rest, with positions below the wrap, comes to an end, with the choice
  -- of `choose` among the queues' jobs and the thread's first ready fiber that has been left, and
  -- leaves the queues at rest with the other jobs.
  pub get_next_job_refines :
      (t : ℕ) (z : Sizes) (m : Manager F) (h n l i : List (Job F))
      → Small z m
      → Holds z m h n l i
      → Chosen z (get_next_job t m) (choose (m.tls t).is_io (resumable t m) h n l i)
  unfolding get_next_job choose
  get_next_job_refines t z m h n l i small v = elim (Bool-cases (m.tls t).is_io) [
    | inl for_io ↦ rw for_io (io-Serves z m h n l i small.io_small v)
    | inr worker ↦ rw worker (worker-Chosen t z m h n l i small v)
  ]
