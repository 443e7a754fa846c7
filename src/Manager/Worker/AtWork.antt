-- ===== src/Manager/Worker/AtWork.antt =====
-- A worker between two rounds of its loop (ManagerCallbacks.cpp), on queues at rest.
use nomad_tasks.Prelude.{ℕ, ◌≡◌, ap, ◌∙◌, false, none, List, [], ◌∷◌}
use nomad_tasks.Manager.{Job, Manager}
use nomad_tasks.Manager.Jobs.{get_next_job, take_ready}
use nomad_tasks.Manager.Jobs.Kept.{Same}
use nomad_tasks.Manager.Jobs.Choosing.Order.{
  Sizes, Holds, Small, Chosen, choose, get_next_job_refines,
}

module _ {F : Type 0} where
  -- A call that comes back on thread `t`, and has left its record, the manager's flag and the queues
  -- alone.
  pub record Alone (t : ℕ) (m : Manager F) (r : ℕ × Manager F) : Type 0 where
    pub thread : r.0 ≡ t
    pub flag : r.1.shutting_down ≡ m.shutting_down
    pub record_ : r.1.tls t ≡ m.tls t
    pub high : r.1.high_priority_queue ≡ m.high_priority_queue
    pub normal : r.1.normal_priority_queue ≡ m.normal_priority_queue
    pub low : r.1.low_priority_queue ≡ m.low_priority_queue
    pub io : r.1.io_queue ≡ m.io_queue

  -- No job of the list has a counter.
  abbrev pub NoCounters : List (Job F) → Type 0
  NoCounters [] = Unit {0}
  NoCounters (job ∷ js) = (job.counter ≡ none) × NoCounters js

  -- Thread `t`, which is not for input and output, has no ready fiber, and the queues are at rest.
  pub record AtWork (z : Sizes) (t : ℕ) (m : Manager F) (h n l i : List (Job F)) : Type 0 where
    pub small : Small z m
    pub holds : Holds z m h n l i
    pub awake : m.shutting_down ≡ false
    pub not_io : (m.tls t).is_io ≡ false
    pub none_ready : (m.tls t).ready_fibers ≡ []

  pub AtWork-Same :
      (z : Sizes) (t : ℕ) (m m' : Manager F) (h n l i h' n' l' i' : List (Job F))
      → AtWork z t m h n l i
      → Same t m m'
      → Holds z m' h' n' l' i'
      → AtWork z t m' h' n' l' i'
  AtWork-Same z t m m' h n l i h' n' l' i' w s holds = record {
    small = record {
      high_small = rw s.high w.small.high_small;
      normal_small = rw s.normal w.small.normal_small;
      low_small = rw s.low w.small.low_small;
      io_small = rw s.io w.small.io_small;
    };
    holds = holds;
    awake = s.flag ∙ w.awake;
    not_io = ap (λ x. x.is_io) s.record_ ∙ w.not_io;
    none_ready = ap (λ x. x.ready_fibers) s.record_ ∙ w.none_ready;
  }

  pub AtWork-Alone :
      (z : Sizes) (t : ℕ) (m : Manager F) (r : ℕ × Manager F) (h n l i : List (Job F))
      → AtWork z t m h n l i
      → Alone t m r
      → AtWork z t r.1 h n l i
  AtWork-Alone z t m r h n l i w a =
      AtWork-Same z t m r.1 h n l i h n l i w
        (record {
          flag = a.flag;
          record_ = a.record_;
          high = ap (λ q. q.enqueue_pos) a.high;
          normal = ap (λ q. q.enqueue_pos) a.normal;
          low = ap (λ q. q.enqueue_pos) a.low;
          io = ap (λ q. q.enqueue_pos) a.io;
        })
        (record {
          high_valid = rw a.high w.holds.high_valid;
          normal_valid = rw a.normal w.holds.normal_valid;
          low_valid = rw a.low w.holds.low_valid;
          io_valid = rw a.io w.holds.io_valid;
          high_jobs = rw a.high w.holds.high_jobs;
          normal_jobs = rw a.normal w.holds.normal_jobs;
          low_jobs = rw a.low w.holds.low_jobs;
          io_jobs = rw a.io w.holds.io_jobs;
        })

  pub next-AtWork :
      (z : Sizes) (t : ℕ) (m : Manager F) (h n l i : List (Job F))
      → AtWork z t m h n l i
      → Chosen z (get_next_job t m) (choose false none h n l i)
  unfolding take_ready
  next-AtWork z t m h n l i w =
      let c = get_next_job_refines t z m h n l i w.small w.holds in rw (w.not_io, w.none_ready) at c
