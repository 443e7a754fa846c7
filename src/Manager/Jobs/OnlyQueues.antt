-- ===== src/Manager/Jobs/OnlyQueues.antt =====
-- `GetNextJob` of a worker with no ready fiber changes nothing but the queues.
use nomad_tasks.Prelude.{ℕ, ◌≡◌, sym, false, Option, some, none, [], arith, bind-some}
use nomad_tasks.Mpmc.{Mpmc, dequeue}
use nomad_tasks.Manager.{Job, Manager}
use nomad_tasks.Manager.Jobs.{
  Next, take_ready, next_low, or_low, normal_or_low, or_ready, after_high, get_next_job,
}

module _ {F : Type 0} where
  abbrev pub with_four :
      Mpmc (Job F) → Mpmc (Job F) → Mpmc (Job F) → Mpmc (Job F) → Manager F → Manager F
  with_four h n l i m = record m {
    high_priority_queue = h;
    normal_priority_queue = n;
    low_priority_queue = l;
    io_queue = i;
  }

  -- The managers differ at most in their queues.
  abbrev pub OnlyQueues : Manager F → Manager F → Type 0
  OnlyQueues m m' = (h n l i : Mpmc (Job F)) × (m' ≡ with_four h n l i m)

  next_low-OnlyQueues :
      (m m' : Manager F) (x : Next F) → next_low m ≡ some (x, m') → OnlyQueues m m'
  next_low-OnlyQueues m m' x e =
      let (r, d, f) = bind-some (dequeue m.low_priority_queue) _ (x, m') e in
      let same : record m { low_priority_queue = r.1 } ≡ m' = ground arith in
      (m.high_priority_queue, m.normal_priority_queue, r.1, m.io_queue, sym same)

  or_low-OnlyQueues :
      (m m' : Manager F) (o : Option (Job F)) (x : Next F)
      → or_low o m ≡ some (x, m')
      → OnlyQueues m m'
  or_low-OnlyQueues m m' (some job) x e =
      let same : m ≡ m' = ground arith in
      (m.high_priority_queue, m.normal_priority_queue, m.low_priority_queue, m.io_queue, sym same)
  or_low-OnlyQueues m m' none x e = next_low-OnlyQueues m m' x e

  normal_or_low-OnlyQueues :
      (m m' : Manager F) (x : Next F) → normal_or_low m ≡ some (x, m') → OnlyQueues m m'
  unfolding normal_or_low
  normal_or_low-OnlyQueues m m' x e =
      let (r, d, f) = bind-some (dequeue m.normal_priority_queue) _ (x, m') e in
      let (h, n, l, i, same) =
        or_low-OnlyQueues (record m { normal_priority_queue = r.1 }) m' r.0 x f in
      (h, n, l, i, same)

  after_high-OnlyQueues :
      (t : ℕ) (m m' : Manager F) (o : Option (Job F)) (x : Next F)
      → (m.tls t).ready_fibers ≡ []
      → after_high t o m ≡ some (x, m')
      → OnlyQueues m m'
  unfolding after_high or_ready take_ready
  after_high-OnlyQueues t m m' (some job) x none_ready e = or_low-OnlyQueues m m' (some job) x e
  after_high-OnlyQueues t m m' none x none_ready e =
      normal_or_low-OnlyQueues m m' x (rw none_ready at e)

  pub get_next_job-OnlyQueues :
      (t : ℕ) (m m' : Manager F) (x : Next F)
      → (m.tls t).is_io ≡ false
      → (m.tls t).ready_fibers ≡ []
      → get_next_job t m ≡ some (x, m')
      → OnlyQueues m m'
  unfolding get_next_job
  get_next_job-OnlyQueues t m m' x not_io none_ready e =
      let (r, d, f) =
        bind-some (dequeue m.high_priority_queue)
          (λ r. after_high t r.0 (record m { high_priority_queue = r.1 })) (x, m')
          (rw not_io at e) in
      let (h, n, l, i, same) =
        after_high-OnlyQueues t (record m { high_priority_queue = r.1 }) m' r.0 x none_ready f in
      (h, n, l, i, same)
