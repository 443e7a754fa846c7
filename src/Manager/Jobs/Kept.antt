-- ===== src/Manager/Jobs/Kept.antt =====
-- What `GetNextJob` leaves as it was.
use nomad_tasks.Prelude.{ℕ, ◌≡◌, refl, ◌∙◌, false, Option, some, none, [], arith, bind-some}
use nomad_tasks.Mpmc.{dequeue}
use nomad_tasks.Mpmc.Position.{dequeue-enqueue_pos}
use nomad_tasks.Manager.{Job, Manager}
use nomad_tasks.Manager.Jobs.{
  Next, take_ready, next_low, or_low, normal_or_low, or_ready, after_high, get_next_job,
}

module _ {F : Type 0} where
  -- The manager's flag, the thread's record and the queues' next positions.
  pub record Same (t : ℕ) (m m' : Manager F) : Type 0 where
    pub flag : m'.shutting_down ≡ m.shutting_down
    pub record_ : m'.tls t ≡ m.tls t
    pub high : m'.high_priority_queue.enqueue_pos ≡ m.high_priority_queue.enqueue_pos
    pub normal : m'.normal_priority_queue.enqueue_pos ≡ m.normal_priority_queue.enqueue_pos
    pub low : m'.low_priority_queue.enqueue_pos ≡ m.low_priority_queue.enqueue_pos
    pub io : m'.io_queue.enqueue_pos ≡ m.io_queue.enqueue_pos

  next_low-Same :
      (t : ℕ) (m₀ m m' : Manager F) (x : Next F)
      → Same t m₀ m
      → next_low m ≡ some (x, m')
      → Same t m₀ m'
  next_low-Same t m₀ m m' x s e =
      let (r, d, f) = bind-some (dequeue m.low_priority_queue) _ (x, m') e in
      let same : record m { low_priority_queue = r.1 } ≡ m' = ground arith in
      rw (← same) (record {
        flag = s.flag;
        record_ = s.record_;
        high = s.high;
        normal = s.normal;
        low = dequeue-enqueue_pos m.low_priority_queue r.1 r.0 d ∙ s.low;
        io = s.io;
      })

  or_low-Same :
      (t : ℕ) (m₀ m m' : Manager F) (o : Option (Job F)) (x : Next F)
      → Same t m₀ m
      → or_low o m ≡ some (x, m')
      → Same t m₀ m'
  or_low-Same t m₀ m m' (some job) x s e = let same : m ≡ m' = ground arith in rw (← same) s
  or_low-Same t m₀ m m' none x s e = next_low-Same t m₀ m m' x s e

  normal_or_low-Same :
      (t : ℕ) (m₀ m m' : Manager F) (x : Next F)
      → Same t m₀ m
      → normal_or_low m ≡ some (x, m')
      → Same t m₀ m'
  unfolding normal_or_low
  normal_or_low-Same t m₀ m m' x s e =
      let (r, d, f) = bind-some (dequeue m.normal_priority_queue) _ (x, m') e in
      or_low-Same t m₀ (record m { normal_priority_queue = r.1 }) m' r.0 x
        (record {
          flag = s.flag;
          record_ = s.record_;
          high = s.high;
          normal = dequeue-enqueue_pos m.normal_priority_queue r.1 r.0 d ∙ s.normal;
          low = s.low;
          io = s.io;
        })
        f

  after_high-Same :
      (t : ℕ) (m₀ m m' : Manager F) (o : Option (Job F)) (x : Next F)
      → (m.tls t).ready_fibers ≡ []
      → Same t m₀ m
      → after_high t o m ≡ some (x, m')
      → Same t m₀ m'
  unfolding after_high or_ready take_ready
  after_high-Same t m₀ m m' (some job) x none_ready s e =
      let same : m ≡ m' = ground arith in rw (← same) s
  after_high-Same t m₀ m m' none x none_ready s e =
      normal_or_low-Same t m₀ m m' x s (rw none_ready at e)

  -- `GetNextJob` on a thread that is not for input and output and has no ready fiber.
  pub get_next_job-Same :
      (t : ℕ) (m m' : Manager F) (x : Next F)
      → (m.tls t).is_io ≡ false
      → (m.tls t).ready_fibers ≡ []
      → get_next_job t m ≡ some (x, m')
      → Same t m m'
  unfolding get_next_job
  get_next_job-Same t m m' x not_io none_ready e =
      let (r, d, f) =
        bind-some (dequeue m.high_priority_queue)
          (λ r. after_high t r.0 (record m { high_priority_queue = r.1 })) (x, m')
          (rw not_io at e) in
      after_high-Same t m (record m { high_priority_queue = r.1 }) m' r.0 x none_ready
        (record {
          flag = refl;
          record_ = refl;
          high = dequeue-enqueue_pos m.high_priority_queue r.1 r.0 d;
          normal = refl;
          low = refl;
          io = refl;
        })
        f
