-- ===== src/Manager/Worker/GivenBack.antt =====
-- Two rounds of a worker (ManagerCallbacks.cpp): the job that a fiber waits for, and the switch back to
-- that fiber.
use nomad_tasks.Prelude.{
  ℕ, suc, ◌≡◌, refl, ap, ap₂, ◌∙◌, Bool, true, false, some, none, List, [], ◌∷◌, arith, update,
  ==-refl,
}
use nomad_tasks.Mpmc.{Mpmc}
use nomad_tasks.Counter.{decrement}
use nomad_tasks.Manager.{Job, Manager}
use nomad_tasks.Manager.Fibers.{cleanup_previous_fiber, hand_back}
use nomad_tasks.Manager.Jobs.{found, resumes, count_down, execute, wait_resumed}
use nomad_tasks.Manager.Jobs.Kept.{get_next_job-Same}
use nomad_tasks.Manager.Jobs.OnlyQueues.{get_next_job-OnlyQueues}
use nomad_tasks.Manager.Jobs.Choosing.Order.{Sizes, Small, Holds, choose}
use nomad_tasks.Manager.Jobs.Choosing.Resuming.{resumed_only, get_next_job-only}
use nomad_tasks.Manager.Worker.{executes, switches, after_next, worker_round, worker_rounds}
use nomad_tasks.Manager.Worker.AtWork.{AtWork, AtWork-Same, next-AtWork}
use nomad_tasks.Manager.Worker.Begun.{Begun, awaited, decrement-awaited}
use nomad_tasks.Manager.Worker.Draining.{round_of}

pool-again :
    (idle : ℕ → Bool) (g : ℕ)
    → idle g ≡ true
    → (a : ℕ) → update (update idle g false) g true a ≡ idle a
pool-again idle g e a = ground arith

module _ {F : Type 0} where
  -- Thread `t` is on its fiber of `m` again, with no ready fiber; the pool is as in `m`, counter `i` at 0,
  -- and the queues at rest and empty.
  pub record Back (z : Sizes) (t i : ℕ) (m m' : Manager F) : Type 0 where
    pub fiber : (m'.tls t).current_fiber ≡ (m.tls t).current_fiber
    pub none_ready : (m'.tls t).ready_fibers ≡ []
    pub pool : (a : ℕ) → m'.idle_fibers a ≡ m.idle_fibers a
    pub value : (m'.counters i).value ≡ 0
    pub holds : Holds z m' [] [] [] []

  -- The job that is waited for.
  abbrev pub waited_job : F → ℕ → Job F
  waited_job f i = record { callback = some f; counter = some i }

  -- The worker's job has ended, and the fiber of `m` is the only ready one.
  record Finished (z : Sizes) (t i g : ℕ) (m m' : Manager F) : Type 0 where
    small : Small z m'
    holds : Holds z m' [] [] [] []
    awake : m'.shutting_down ≡ false
    not_io : (m'.tls t).is_io ≡ false
    ready : (m'.tls t).ready_fibers ≡ ((m.tls t).current_fiber, m.next_stored) ∷ []
    left : m'.stored m.next_stored ≡ true
    value : (m'.counters i).value ≡ 0
    current : (m'.tls t).current_fiber ≡ g
    idle : m'.idle_fibers ≡ update m.idle_fibers g false

  -- What stays when the job has ended.
  record EndedJob (t i : ℕ) (m m' : Manager F) : Type 0 where
    counter : m'.counters i ≡ (decrement 1 (m.counters i, (m.tls t).ready_fibers)).1.0
    ready : (m'.tls t).ready_fibers ≡ (decrement 1 (m.counters i, (m.tls t).ready_fibers)).1.1
    is_io : (m'.tls t).is_io ≡ (m.tls t).is_io
    current : (m'.tls t).current_fiber ≡ (m.tls t).current_fiber

  count_down-EndedJob : (t i : ℕ) (m : Manager F) → EndedJob t i m (count_down (some i) t m)
  unfolding count_down
  count_down-EndedJob t i m = record {
    counter = rw (==-refl i) refl;
    ready = rw (==-refl t) refl;
    is_io = rw (==-refl t) refl;
    current = rw (==-refl t) refl;
  }

  Holds-count_down :
      (z : Sizes) (t i : ℕ) (m : Manager F)
      → Holds z m [] [] [] []
      → Holds z (count_down (some i) t m) [] [] [] []
  unfolding count_down
  Holds-count_down z t i m v = record {
    high_valid = v.high_valid;
    normal_valid = v.normal_valid;
    low_valid = v.low_valid;
    io_valid = v.io_valid;
    high_jobs = v.high_jobs;
    normal_jobs = v.normal_jobs;
    low_jobs = v.low_jobs;
    io_jobs = v.io_jobs;
  }

  count_down-Finished :
      (z : Sizes) (t i g : ℕ) (old : ℕ → Bool) (m m₁ : Manager F)
      → AtWork z t m₁ [] [] [] []
      → m₁.counters i ≡ awaited old (m.tls t).current_fiber m.next_stored
      → m₁.stored m.next_stored ≡ true
      → (m₁.tls t).current_fiber ≡ g
      → m₁.idle_fibers ≡ update m.idle_fibers g false
      → Finished z t i g m (count_down (some i) t m₁)
  unfolding count_down
  count_down-Finished z t i g old m m₁ w counter stored current idle =
      let e = count_down-EndedJob t i m₁ in
      let at_end : (decrement 1 (m₁.counters i, (m₁.tls t).ready_fibers)).1
          ≡ (decrement 1 (awaited old (m.tls t).current_fiber m.next_stored, [])).1 =
        ap₂ (λ c r. (decrement 1 (c, r)).1) counter w.none_ready in
      let (ready, zero_) = decrement-awaited old (m.tls t).current_fiber m.next_stored in
      record {
        small = record {
          high_small = w.small.high_small;
          normal_small = w.small.normal_small;
          low_small = w.small.low_small;
          io_small = w.small.io_small;
        };
        holds = Holds-count_down z t i m₁ w.holds;
        awake = w.awake;
        not_io = e.is_io ∙ w.not_io;
        ready = e.ready ∙ ap (λ r. r.1) at_end ∙ ready;
        left = stored;
        value = ap (λ c. c.value) e.counter ∙ ap (λ r. r.0.value) at_end ∙ zero_;
        current = e.current ∙ current;
        idle = idle;
      }

  -- The fiber that is resumed gives the worker's back to the pool.
  back-fields :
      (t fiber : ℕ) (q : Mpmc (Job F)) (m : Manager F)
      → let m' = wait_resumed t (resumed_only t fiber q m) in
        ((m'.tls t).current_fiber ≡ fiber)
        × ((m'.tls t).ready_fibers ≡ [])
        × (m'.idle_fibers ≡ update m.idle_fibers (m.tls t).current_fiber true)
        × (m'.counters ≡ m.counters)
        × (m'.high_priority_queue ≡ q)
        × (m'.normal_priority_queue ≡ m.normal_priority_queue)
        × (m'.low_priority_queue ≡ m.low_priority_queue)
        × (m'.io_queue ≡ m.io_queue)
  unfolding cleanup_previous_fiber hand_back
  back-fields t fiber q m = simp (==-refl t) (refl, refl, refl, refl, refl, refl, refl, refl)

  module _ (call : F → ℕ → Manager F → ℕ × Manager F) where
    execute_lem :
        (f : F) (i t : ℕ) (m : Manager F)
        → call f t m ≡ (t, m)
        → execute call (waited_job f i) t m ≡ (t, count_down (some i) t m)
    unfolding execute
    execute_lem f i t m e = ap (λ r. (r.0, count_down (some i) r.0 r.1)) e

    -- The job's round: it is executed, and the fiber that waits for it is ready.
    job_round :
        (z : Sizes) (t i g : ℕ) (old : ℕ → Bool) (m m' : Manager F) (f : F)
        (hs ns ls : List (Job F))
        → Begun z t i g old m hs ns ls m'
        → choose false none hs ns ls [] ≡ (found (waited_job f i), ([], [], [], []))
        → ((x : Manager F) → call f t x ≡ (t, x))
        → (m₂ : Manager F) × (worker_round call t m' ≡ some (executes (waited_job f i), t, m₂))
          × Finished z t i g m m₂
    unfolding after_next
    job_round z t i g old m m' f hs ns ls b only quiet =
        let job : Job F = waited_job f i in
        let (m₁, found_it, holds) = rw only at (next-AtWork z t m' hs ns ls [] b.work) in
        let (h, nq, l, io, same) =
          get_next_job-OnlyQueues t m' m₁ (found job) b.work.not_io b.work.none_ready found_it in
        let s = get_next_job-Same t m' m₁ (found job) b.work.not_io b.work.none_ready found_it in
        let w = AtWork-Same z t m' m₁ hs ns ls [] [] [] [] [] b.work s holds in
        (
          count_down (some i) t m₁,
          round_of call t m' m₁ (found job) b.work.awake found_it
              ∙ ap (λ r. some (executes job, r.0, r.1)) (execute_lem f i t m₁ (quiet m₁)),
          count_down-Finished z t i g old m m₁ w (ap (λ x. x.counters i) same ∙ b.counter)
              (ap (λ x. x.stored m.next_stored) same ∙ b.stored)
              (ap (λ x. (x.tls t).current_fiber) same ∙ b.current)
              (ap (λ x. x.idle_fibers) same ∙ b.idle),
        )

    -- The round after: the fiber is resumed.
    resume_round :
        (z : Sizes) (t i g : ℕ) (m m₂ : Manager F)
        → Finished z t i g m m₂
        → m.idle_fibers g ≡ true
        → (m₃ : Manager F) × (worker_round call t m₂
            ≡ some (switches (m.tls t).current_fiber, t, m₃))
          × Back z t i m (wait_resumed t m₃)
    unfolding after_next
    resume_round z t i g m m₂ d free =
        let fiber = (m.tls t).current_fiber in
        let (q, e, v) =
          get_next_job-only z t fiber m.next_stored m₂ d.small d.holds d.not_io d.ready d.left in
        let (current, none_ready, idle, counters, high, normal, low, io) =
          back-fields t fiber q m₂ in
        (
          resumed_only t fiber q m₂,
          round_of call t m₂ (resumed_only t fiber q m₂) (resumes fiber) d.awake e,
          record {
            fiber = current;
            none_ready = none_ready;
            pool = λ a.
                ap (λ idles. idles a) idle
                ∙ ap (λ idles. update idles (m₂.tls t).current_fiber true a) d.idle
                ∙ ap (λ x. update (update m.idle_fibers g false) x true a) d.current
                ∙ pool-again m.idle_fibers g free a;
            value = ap (λ c. (c i).value) counters ∙ d.value;
            holds = record {
              high_valid = rw high v.high_valid;
              normal_valid = rw normal v.normal_valid;
              low_valid = rw low v.low_valid;
              io_valid = rw io v.io_valid;
              high_jobs = rw high v.high_jobs;
              normal_jobs = rw normal v.normal_jobs;
              low_jobs = rw low v.low_jobs;
              io_jobs = rw io v.io_jobs;
            };
          },
        )

    -- A worker that begins with just the job that the fiber waits for.
    pub rounds-Back :
        (z : Sizes) (t i g n : ℕ) (old : ℕ → Bool) (m m' : Manager F) (f : F)
        (hs ns ls : List (Job F))
        → Begun z t i g old m hs ns ls m'
        → m.idle_fibers g ≡ true
        → choose false none hs ns ls [] ≡ (found (waited_job f i), ([], [], [], []))
        → ((x : Manager F) → call f t x ≡ (t, x))
        → (m₃ : Manager F) × (worker_rounds call (suc (suc n)) t m'
            ≡ some (executes (waited_job f i) ∷ switches (m.tls t).current_fiber ∷ [], t, m₃))
          × Back z t i m (wait_resumed t m₃)
    unfolding worker_rounds
    rounds-Back z t i g n old m m' f hs ns ls b free only quiet =
        let (m₂, first, d) = job_round z t i g old m m' f hs ns ls b only quiet in
        let (m₃, second, back) = resume_round z t i g m m₂ d free in
        (m₃, rw (first, second) refl, back)
