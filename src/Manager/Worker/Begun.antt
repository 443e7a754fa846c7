-- ===== src/Manager/Worker/Begun.antt =====
-- A worker that begins on the thread that `WaitForSingle` (ManagerJobs.cpp) has left its fiber on.
use nomad_tasks.Prelude.{
  ℕ, ◌≡◌, refl, sym, ap, ◌∙◌, Bool, true, false, some, List, [], ◌∷◌, update, ==-refl,
}
use nomad_tasks.Mpmc.{Mpmc}
use nomad_tasks.Counter.{Counter, new_counter, tiny_counter, free_slots, increment, decrement}
use nomad_tasks.Counter.Add.{settled}
use nomad_tasks.Counter.Check.{swept, sleepers, modify_lem}
use nomad_tasks.Manager.{Job, Manager}
use nomad_tasks.Manager.Fibers.{cleanup_previous_fiber, hand_back}
use nomad_tasks.Manager.Jobs.{count_up}
use nomad_tasks.Manager.Jobs.OnlyQueues.{with_four}
use nomad_tasks.Manager.Jobs.Choosing.Order.{Sizes, Holds, Small}
use nomad_tasks.Manager.Jobs.Waiting.{waiter, parked, switched}
use nomad_tasks.Manager.Jobs.Single.Resumed.{with_tiny}
use nomad_tasks.Manager.Worker.AtWork.{AtWork}

-- The counter of `WaitForSingle` once the job has been counted, and once the fiber waits on it.
abbrev counted_tiny : (ℕ → Bool) → Counter
counted_tiny old = swept 1 (record (tiny_counter old) { value = 1 })

abbrev awaits : ℕ → ℕ → Counter → Counter
awaits fiber flag c = settled 0 (record { fiber = fiber; stored = flag; target = 0 }) c

abbrev pub awaited : (ℕ → Bool) → ℕ → ℕ → Counter
awaited old fiber flag = awaits fiber flag (counted_tiny old)

increment-tiny : (old : ℕ → Bool) → (increment 1 (tiny_counter old, [])).1 ≡ (counted_tiny old, [])
unfolding sleepers new_counter free_slots
increment-tiny old = ap (λ s. s.1) (modify_lem 1 (tiny_counter old) []).0

-- The job's end makes the fiber ready.
pub decrement-awaited :
    (old : ℕ → Bool) (fiber flag : ℕ)
    → ((decrement 1 (awaited old fiber flag, [])).1.1 ≡ (fiber, flag) ∷ [])
      × ((decrement 1 (awaited old fiber flag, [])).1.0.value ≡ 0)
unfolding settled swept sleepers new_counter free_slots
decrement-awaited old fiber flag =
    let e = (modify_lem 1 (awaited old fiber flag) []).1 in
    (ap (λ s. s.1.1) e, ap (λ s. s.1.0.value) e)

module _ {F : Type 0} where
  -- Thread `t` runs fiber `g`, a worker that begins with the given jobs in the queues, as the fiber that
  -- it was on in `m` waits for counter `i`.
  pub record Begun (z : Sizes) (t i g : ℕ) (old : ℕ → Bool) (m : Manager F) (h n l : List (Job F))
      (m' : Manager F) : Type 0 where
    pub work : AtWork z t m' h n l []
    pub counter : m'.counters i ≡ awaited old (m.tls t).current_fiber m.next_stored
    pub stored : m'.stored m.next_stored ≡ true
    pub current : (m'.tls t).current_fiber ≡ g
    pub idle : m'.idle_fibers ≡ update m.idle_fibers g false

  -- The manager with the job counted and in its queue.
  abbrev pub counted_in :
      (t i : ℕ) (old : ℕ → Bool) (h n l io : Mpmc (Job F)) (m : Manager F) → Manager F
  counted_in t i old h n l io m = with_four h n l io (count_up (some i) t (with_tiny i old m))

  -- The manager once the worker has handed back the fiber that was left.
  abbrev pub began : (t i g : ℕ) (m₁ : Manager F) → Manager F
  began t i g m₁ = cleanup_previous_fiber t (switched t g (parked m₁ t i 0 0))

  module _ (t i g : ℕ) (old : ℕ → Bool) (h n l io : Mpmc (Job F)) (m : Manager F)
      (none_ready : (m.tls t).ready_fibers ≡ []) where
    counted-counter : (counted_in t i old h n l io m).counters i ≡ counted_tiny old
    unfolding count_up
    counted-counter = rw (==-refl i, none_ready, increment-tiny old) refl

    counted-ready : ((counted_in t i old h n l io m).tls t).ready_fibers ≡ []
    unfolding count_up
    counted-ready = rw (==-refl i, ==-refl t, none_ready, increment-tiny old) refl

  began-counter :
      (t i g : ℕ) (m₁ : Manager F)
      → (began t i g m₁).counters i ≡ settled 0 (waiter m₁ t 0) (m₁.counters i)
  unfolding cleanup_previous_fiber hand_back
  began-counter t i g m₁ = simp (==-refl t, ==-refl i) refl

  began-stored : (t i g : ℕ) (m₁ : Manager F) → (began t i g m₁).stored m₁.next_stored ≡ true
  unfolding cleanup_previous_fiber hand_back
  began-stored t i g m₁ = simp (==-refl t, ==-refl m₁.next_stored) refl

  began-tls :
      (t i g : ℕ) (m₁ : Manager F)
      → let l = (began t i g m₁).tls t in
        (l.current_fiber ≡ g)
        × (l.ready_fibers ≡ (m₁.tls t).ready_fibers)
        × (l.is_io ≡ (m₁.tls t).is_io)
  unfolding cleanup_previous_fiber hand_back
  began-tls t i g m₁ = simp (==-refl t) (refl, refl, refl)

  began-idle :
      (t i g : ℕ) (m₁ : Manager F)
      → ((began t i g m₁).idle_fibers ≡ update m₁.idle_fibers g false)
        × ((began t i g m₁).shutting_down ≡ m₁.shutting_down)
        × ((began t i g m₁).high_priority_queue ≡ m₁.high_priority_queue)
        × ((began t i g m₁).normal_priority_queue ≡ m₁.normal_priority_queue)
        × ((began t i g m₁).low_priority_queue ≡ m₁.low_priority_queue)
        × ((began t i g m₁).io_queue ≡ m₁.io_queue)
  unfolding cleanup_previous_fiber hand_back
  began-idle t i g m₁ = simp (==-refl t) (refl, refl, refl, refl, refl, refl)

  counted-tls :
      (t i : ℕ) (old : ℕ → Bool) (h n l io : Mpmc (Job F)) (m : Manager F)
      → let r = (counted_in t i old h n l io m).tls t in
        (r.current_fiber ≡ (m.tls t).current_fiber) × (r.is_io ≡ (m.tls t).is_io)
  unfolding count_up
  counted-tls t i old h n l io m = simp (==-refl t) (refl, refl)

  counted-rest :
      (t i : ℕ) (old : ℕ → Bool) (h n l io : Mpmc (Job F)) (m : Manager F)
      → let m₁ = counted_in t i old h n l io m in
        (m₁.next_stored ≡ m.next_stored)
        × (m₁.idle_fibers ≡ m.idle_fibers)
        × (m₁.shutting_down ≡ m.shutting_down)
  unfolding count_up
  counted-rest t i old h n l io m = (refl, refl, refl)

  pub Begun-began :
      (z : Sizes) (t i g : ℕ) (old : ℕ → Bool) (h n l io : Mpmc (Job F)) (m : Manager F)
      (hs ns ls : List (Job F))
      → Holds z (with_four h n l io m) hs ns ls []
      → Small z (with_four h n l io m)
      → m.shutting_down ≡ false
      → (m.tls t).is_io ≡ false
      → (m.tls t).ready_fibers ≡ []
      → Begun z t i g old m hs ns ls (began t i g (counted_in t i old h n l io m))
  Begun-began z t i g old h n l io m hs ns ls holds small awake not_io none_ready =
      let m₁ = counted_in t i old h n l io m in
      let (flag_, idle_, awake_) = counted-rest t i old h n l io m in
      let (own, io_) = counted-tls t i old h n l io m in
      let (current, ready, io') = began-tls t i g m₁ in
      let (idle, down, high, normal, low, io_same) = began-idle t i g m₁ in
      let empty = counted-ready t i g old h n l io m none_ready in
      record {
        work = record {
          small = record {
            high_small = rw high small.high_small;
            normal_small = rw normal small.normal_small;
            low_small = rw low small.low_small;
            io_small = rw io_same small.io_small;
          };
          holds = record {
            high_valid = rw high holds.high_valid;
            normal_valid = rw normal holds.normal_valid;
            low_valid = rw low holds.low_valid;
            io_valid = rw io_same holds.io_valid;
            high_jobs = rw high holds.high_jobs;
            normal_jobs = rw normal holds.normal_jobs;
            low_jobs = rw low holds.low_jobs;
            io_jobs = rw io_same holds.io_jobs;
          };
          awake = down ∙ awake_ ∙ awake;
          not_io = io' ∙ io_ ∙ not_io;
          none_ready = ready ∙ empty;
        };
        counter =
            began-counter t i g m₁
            ∙ ap (λ f. awaits f m₁.next_stored (m₁.counters i)) own
            ∙ ap (λ x. awaits (m.tls t).current_fiber x (m₁.counters i)) flag_
            ∙ ap (λ c. awaits (m.tls t).current_fiber m.next_stored c)
                (counted-counter t i g old h n l io m none_ready);
        stored = ap (λ x. (began t i g m₁).stored x) (sym flag_) ∙ began-stored t i g m₁;
        current = current;
        idle = idle ∙ ap (λ f. update f g false) idle_;
      }
