-- ===== src/Manager/Jobs/Single/Resumed.antt =====
-- A job that is scheduled and waited for, where its queue has room.
use nomad_tasks.Prelude.{
  ℕ, ◌+◌, ◌^◌, ◌<◌, ◌≡◌, refl, ◌∙◌, Bool, true, Option, some, List, [], ◌∷◌, ◌++◌, length, arith,
  update, ==-refl,
}
use nomad_tasks.Mpmc.{Mpmc}
use nomad_tasks.Mpmc.Fifo.{push, Valid, contents}
use nomad_tasks.Counter.{Ready, new_counter, tiny_counter, free_slots}
use nomad_tasks.Counter.Check.{swept, modify_lem}
use nomad_tasks.Manager.{JobPriority, high, normal, low, io, unnamed, Job, Manager}
use nomad_tasks.Manager.Fibers.{cleanup_previous_fiber}
use nomad_tasks.Manager.Jobs.{
  queued, leaves, queue_of, set_queue, count_up, count_down, schedule_job, wait_for_counter,
  take_ready,
}
use nomad_tasks.Manager.Jobs.Scheduling.{schedule_job-push}
use nomad_tasks.Manager.Jobs.Waiting.{switched, parked, wait-Listed}
use nomad_tasks.Manager.Jobs.Single.{then_waits, after_schedule, schedule_and_wait}

pub push-room :
    {A : Type 0} (size : ℕ) (x : A) (xs : List A)
    → length xs < size
    → push size x xs ≡ (true, xs ++ (x ∷ []))
unfolding push
push-room size x xs lt = ground arith

module _ {F : Type 0} where
  -- The queue of a job's priority is at rest, with its positions below the wrap.
  pub record AtRest (prio : JobPriority) (k : ℕ) (q : Mpmc (Job F)) (m : Manager F) : Type 0 where
    pub named : queue_of prio m ≡ some q
    pub valid : Valid k q
    pub small : q.enqueue_pos + 2 ^ k < 2 ^ 63

  -- Counter `i` is at 0 with its first slot free.
  pub record Unused (i : ℕ) (m : Manager F) : Type 0 where
    pub at_zero : (m.counters i).value ≡ 0
    pub some_slot : 0 < (m.counters i).num_waiting_fibers
    pub first_free : (m.counters i).free_waiting_slots 0 ≡ true

  -- What stays of a manager when a job is counted and put into its queue.
  pub record Counted (t i : ℕ) (m m' : Manager F) : Type 0 where
    pub value : (m'.counters i).value ≡ 1
    pub slots : (m'.counters i).num_waiting_fibers ≡ (m.counters i).num_waiting_fibers
    pub free : (m'.counters i).free_waiting_slots 0 ≡ true
    pub fibers : m'.num_fibers ≡ m.num_fibers
    pub idle : m'.idle_fibers ≡ m.idle_fibers
    pub fiber : (m'.tls t).current_fiber ≡ (m.tls t).current_fiber
    pub flags : m'.next_stored ≡ m.next_stored

  pub count_up-Counted :
      (t i : ℕ) (m : Manager F) → Unused i m → Counted t i m (count_up (some i) t m)
  unfolding count_up swept
  count_up-Counted t i m u =
      let c = m.counters i in
      let up = (modify_lem 1 c (m.tls t).ready_fibers).0 in
      record {
        value = rw (==-refl i, up, u.at_zero) refl;
        slots = rw (==-refl i, up) refl;
        free = rw (==-refl i, up, u.first_free) (ground arith);
        fibers = refl;
        idle = refl;
        fiber = rw (==-refl t) refl;
        flags = refl;
      }

  set_queue-Counted :
      (t i : ℕ) (prio : JobPriority) (q : Mpmc (Job F)) (m m' : Manager F)
      → Counted t i m m'
      → Counted t i m (set_queue prio q m')
  set_queue-Counted t i high q m m' c = record {
    value = c.value;
    slots = c.slots;
    free = c.free;
    fibers = c.fibers;
    idle = c.idle;
    fiber = c.fiber;
    flags = c.flags;
  }
  set_queue-Counted t i normal q m m' c = record {
    value = c.value;
    slots = c.slots;
    free = c.free;
    fibers = c.fibers;
    idle = c.idle;
    fiber = c.fiber;
    flags = c.flags;
  }
  set_queue-Counted t i low q m m' c = record {
    value = c.value;
    slots = c.slots;
    free = c.free;
    fibers = c.fibers;
    idle = c.idle;
    fiber = c.fiber;
    flags = c.flags;
  }
  set_queue-Counted t i io q m m' c = record {
    value = c.value;
    slots = c.slots;
    free = c.free;
    fibers = c.fibers;
    idle = c.idle;
    fiber = c.fiber;
    flags = c.flags;
  }
  set_queue-Counted t i (unnamed b) q m m' c = c

  queued-Counted :
      (t i : ℕ) (prio : JobPriority) (q : Mpmc (Job F)) (m : Manager F) (counter : Option ℕ)
      → counter ≡ some i
      → Unused i m
      → Counted t i m (set_queue prio q (count_up counter t m))
  queued-Counted t i prio q m counter own n =
      rw own (set_queue-Counted t i prio q m (count_up (some i) t m) (count_up-Counted t i m n))

  -- Once thread `t` has begun with the fiber that it switched to, and the counter is counted down on
  -- any thread `u`, `u` has the fiber that thread `t` was on among its ready fibers, as one that has
  -- been left, and a search among them finds one.
  abbrev pub Woken : (t u i : ℕ) (m m' : Manager F) → Type 0
  Woken t u i m m' =
      let end = count_down (some i) u (cleanup_previous_fiber t m') in
      (before after : List Ready) × (x : ℕ × List Ready) × ((end.tls u).ready_fibers
        ≡ before ++ (((m.tls t).current_fiber, m.next_stored) ∷ after))
      × (end.stored m.next_stored ≡ true)
      × (take_ready end.stored (end.tls u).ready_fibers ≡ some x)

  -- Thread `t` leaves its fiber for an idle one, until the counter is 0 again.
  abbrev pub Leaves : (t u i : ℕ) (m m₁ : Manager F) → Type 0
  Leaves t u i m m₁ =
      (g : ℕ) × (m' : Manager F) × (wait_for_counter t (some i) 0 m₁ ≡ some (leaves g, m'))
      × (m.idle_fibers g ≡ true)
      × Woken t u i m m'

  Counted-Leaves :
      (t u i f : ℕ) (m m₁ : Manager F)
      → Unused i m
      → Counted t i m m₁
      → f < m.num_fibers
      → m.idle_fibers f ≡ true
      → Leaves t u i m m₁
  Counted-Leaves t u i f m m₁ n c pool idle =
      let (g, e, was, (x, (b, a, list, flag, found))) =
        wait-Listed m₁ t u i 0 f 0 (rw c.slots n.some_slot) (λ a lt. absurd (omega arith)) c.free
          (λ e. let one : 0 ≡ 1 = e ∙ c.value in omega arith) (rw c.value refl) (rw c.fibers pool)
          (rw c.idle idle) in
      rw (← c.idle, ← c.fiber, ← c.flags)
        (g, switched t g (parked m₁ t i 0 0), e, was, (b, a, x, list, flag, found))

  -- The job is put into its queue.
  abbrev pub Queued :
      (t : ℕ) (prio : JobPriority) (job : Job F) (k : ℕ) (m : Manager F) (old : List (Job F))
      → Manager F
      → Type 0
  Queued t prio job k m old m₁ =
      (q' : Mpmc (Job F)) × (m₁ ≡ set_queue prio q' (count_up job.counter t m))
      × (schedule_job t prio job m ≡ some (queued, m₁))
      × Valid k q'
      × (contents k q' ≡ old ++ (job ∷ []))

  pub schedule_job-Queued :
      (t : ℕ) (prio : JobPriority) (job : Job F) (k : ℕ) (q : Mpmc (Job F)) (m : Manager F)
      → AtRest prio k q m
      → length (contents k q) < 2 ^ k
      → (m₁ : Manager F) × Queued t prio job k m (contents k q) m₁
  schedule_job-Queued t prio job k q m a room =
      let (q', e, v, c) =
        rw (push-room (2 ^ k) job (contents k q) room) at
          (schedule_job-push t prio job m k q a.named a.valid a.small) in
      (set_queue prio q' (count_up job.counter t m), (q', refl, e, v, c))

  -- Where the queue of the job's priority is at rest, with its positions below the wrap and room, the
  -- job has the counter, which is at 0 with its first slot free, and a fiber is idle: the job is
  -- put at the end of its queue, and the fiber of thread `t` left for an idle one, until it is made
  -- ready by the thread that takes the counter back to 0.
  pub schedule_and_wait-Leaves :
      (t u i f : ℕ) (prio : JobPriority) (job : Job F) (k : ℕ) (q : Mpmc (Job F)) (m : Manager F)
      → AtRest prio k q m
      → length (contents k q) < 2 ^ k
      → job.counter ≡ some i
      → Unused i m
      → f < m.num_fibers
      → m.idle_fibers f ≡ true
      → (m₁ : Manager F) × (g : ℕ) × (m' : Manager F) × Queued t prio job k m (contents k q) m₁
        × (wait_for_counter t (some i) 0 m₁ ≡ some (leaves g, m'))
        × (schedule_and_wait t prio job i m ≡ some (then_waits (leaves g), m'))
        × (m.idle_fibers g ≡ true)
        × Woken t u i m m'
  unfolding schedule_and_wait after_schedule
  schedule_and_wait-Leaves t u i f prio job k q m a room own n pool idle =
      let (m₁, (q', at, e, v, c)) = schedule_job-Queued t prio job k q m a room in
      let counted : Counted t i m m₁ = rw at (queued-Counted t i prio q' m job.counter own n) in
      let (g, m', w, was, woken) = Counted-Leaves t u i f m m₁ n counted pool idle in
      (m₁, g, m', (q', at, e, v, c), w, rw (e, w) refl, was, woken)

  -- The manager with the counter of `WaitForSingle`.
  abbrev pub with_tiny : (i : ℕ) (old : ℕ → Bool) (m : Manager F) → Manager F
  with_tiny i old m = record m { counters = update m.counters i (tiny_counter old) }

  pub tiny-Unused : (i : ℕ) (old : ℕ → Bool) (m : Manager F) → Unused i (with_tiny i old m)
  unfolding new_counter free_slots
  tiny-Unused i old m = record {
    at_zero = rw (==-refl i) refl;
    some_slot = rw (==-refl i) (omega arith);
    first_free = rw (==-refl i) refl;
  }
