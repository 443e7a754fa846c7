-- ===== src/Queue/Executed.antt =====
-- `Queue::Execute` on a manager that can take each job.
use nomad_tasks.Prelude.{
  ℕ, suc, ◌+◌, ◌^◌, ◌<◌, ◌≡◌, refl, ap, ◌∙◌, Bool, true, false, some, List, [], ◌∷◌, ◌++◌, length,
  arith,
}
use mathlib.Core.List.{map}
use nomad_tasks.Mpmc.{Mpmc}
use nomad_tasks.Mpmc.Fifo.{contents}
use nomad_tasks.Manager.{JobPriority, unnamed, Job, Manager}
use nomad_tasks.Manager.Jobs.{leaves, queue_of, wait_for_counter}
use nomad_tasks.Manager.Jobs.Single.{then_waits, schedule_and_wait}
use nomad_tasks.Manager.Jobs.Single.Resumed.{AtRest, Unused, Queued, schedule_and_wait-Leaves}
use nomad_tasks.Queue.{
  Queue, ran, no_jobs, At, come_back, erase_first, erase_begin, add, after_wait, step_first, step,
  execute,
}

abbrev pub is_named : JobPriority → Bool
is_named (unnamed b) = false
is_named _ = true

module _ {F : Type 0} where
  -- Each job has a priority that names a queue, and the given counter.
  abbrev pub Sound : ℕ → List (JobPriority × Job F) → Type 0
  Sound c [] = Unit {0}
  Sound c ((prio, job) ∷ js) = (is_named prio ≡ true) × (job.counter ≡ some c) × Sound c js

  Sound-append :
      (c : ℕ) (js : List (JobPriority × Job F)) (prio : JobPriority) (job : Job F)
      → Sound c js
      → is_named prio ≡ true
      → job.counter ≡ some c
      → Sound c (js ++ ((prio, job) ∷ []))
  Sound-append c [] prio job sound named own = (named, own, tt)
  Sound-append c ((p, j) ∷ js) prio job (n, o, sound) named own =
      (n, o, Sound-append c js prio job sound named own)

  -- A job that is added has the queue's counter.
  pub add-Sound :
      (prio : JobPriority) (job : Job F) (q : Queue F)
      → is_named prio ≡ true
      → Sound q.counter q.jobs
      → Sound q.counter (add prio job q).jobs
  unfolding add
  add-Sound prio job q named sound =
      Sound-append q.counter q.jobs prio (record job { counter = some q.counter }) sound named refl

  -- The four queues are at rest, with their positions below the wrap and room, the counter is unused,
  -- and a fiber is idle.
  pub record Open (c : ℕ) (m : Manager F) : Type 0 where
    pub takes :
        (prio : JobPriority)
        → is_named prio ≡ true
        → (k : ℕ) × (q : Mpmc (Job F)) × AtRest prio k q m × (length (contents k q) < 2 ^ k)
    pub unused : Unused c m
    pub fiber : ℕ
    pub in_pool : fiber < m.num_fibers
    pub idle : m.idle_fibers fiber ≡ true

  abbrev with_jobs : (List (JobPriority × Job F) → List (JobPriority × Job F)) → Queue F → Queue F
  with_jobs f q = record q { jobs = f q.jobs }

  module _ (away : At F → At F) where
    -- When `Step` has left its fiber, on a manager that is open, the program adds no job to the queue,
    -- and the manager is open again when the fiber is resumed.
    abbrev pub Serves : ℕ → Type 0
    Serves c =
        (s : At F) (m : Manager F) (prio : JobPriority) (job : Job F) (g : ℕ)
        → Open c m
        → schedule_and_wait s.thread prio job c m ≡ some (then_waits (leaves g), s.manager)
        → Open c (come_back away s).manager × ((away s).queue ≡ s.queue)

    -- From `s` to `s'` each of the jobs was put at the end of the queue of its priority by `ScheduleJob`,
    -- and its counter waited for on an idle fiber, until the fiber of `Step` was resumed, where `Step`
    -- took it out of its list; the next one then, on what that had left.
    abbrev pub Served : ℕ → List (JobPriority × Job F) → At F → At F → Type 0
    Served c [] s s' = s ≡ s'
    Served c ((prio, job) ∷ js) s s' =
        (k : ℕ) × (q : Mpmc (Job F)) × (m₁ m₂ : Manager F) × (g : ℕ) × (queue_of prio s.manager
          ≡ some q)
        × Queued s.thread prio job k s.manager (contents k q) m₁
        × (wait_for_counter s.thread (some c) 0 m₁ ≡ some (leaves g, m₂))
        × Served c js (erase_begin (come_back away (record s { manager = m₂ }))) s'

    step-ran :
        (c : ℕ) (s : At F) (prio : JobPriority) (job : Job F) (js : List (JobPriority × Job F))
        → Serves c
        → Open c s.manager
        → s.queue.counter ≡ c
        → s.queue.jobs ≡ (prio, job) ∷ js
        → is_named prio ≡ true
        → job.counter ≡ some c
        → (s' : At F) × (step away s ≡ some (ran prio job, s'))
          × Open c s'.manager
          × (s'.queue ≡ record s.queue { jobs = js })
          × ((end : At F) → Served c js s' end → Served c ((prio, job) ∷ js) s end)
    unfolding step step_first after_wait
    step-ran c s prio job js serves ready at_counter first named own =
        let (k, q, a, room) = ready.takes prio named in
        let (m₁, g, m', taken, w, e, was, woken) =
          schedule_and_wait-Leaves s.thread s.thread c ready.fiber prio job k q s.manager a room own
            ready.unused ready.in_pool ready.idle in
        let (again, same) = serves (record s { manager = m' }) s.manager prio job g ready e in
        (
          erase_begin (come_back away (record s { manager = m' })),
          rw (first, at_counter, e) refl,
          again,
          ap (with_jobs erase_first) same
              ∙ ap (λ l. with_jobs (λ _. l) s.queue) (ap erase_first first),
          λ end rest. (k, q, m₁, m', g, a.named, taken, w, rest),
        )

    empty-step : (s : At F) → s.queue.jobs ≡ [] → step away s ≡ some (no_jobs, s)
    unfolding step step_first
    empty-step s e = ap (λ l. step_first away l s) e

    -- On an open manager, where the program serves the queue, and each job has a priority that names
    -- one of the manager's queues and the queue's counter: `Execute` comes to an end within one step
    -- more than there are jobs, however many steps it is given beyond. Each of the jobs, in order, is put
    -- at the end of the manager's queue of its priority and waited for, the first from where `Execute`
    -- begins and each other one from where the fiber is once the wait for the one before is over; nothing
    -- else happens. The queue is empty at the end, and the manager open.
    pub execute-all :
        (c more : ℕ) (js : List (JobPriority × Job F)) (s : At F)
        → Serves c
        → Open c s.manager
        → s.queue.counter ≡ c
        → s.queue.jobs ≡ js
        → Sound c js
        → (s' : At F) × (execute away (length js + suc more) s
            ≡ some (map (λ j. ran j.0 j.1) js ++ (no_jobs ∷ []), s'))
          × Open c s'.manager
          × (s'.queue ≡ record s.queue { jobs = [] })
          × Served c js s s'
    unfolding execute
    execute-all c more [] s serves ready at_counter all sound =
        let e : 0 + suc more ≡ suc more = omega arith in
        (s, rw (e, empty-step s all) refl, ready, ap (λ l. with_jobs (λ _. l) s.queue) all, refl)
    execute-all c more ((prio, job) ∷ js) s serves ready at_counter all (named, own, sound) =
        let e : suc (length js) + suc more ≡ suc (length js + suc more) = omega arith in
        let (s₁, stepped, ready₁, queue₁, served) =
          step-ran c s prio job js serves ready at_counter all named own in
        let (s₂, ended, ready₂, queue₂, rest) =
          execute-all c more js s₁ serves ready₁ (ap (λ q. q.counter) queue₁ ∙ at_counter)
            (ap (λ q. q.jobs) queue₁) sound in
        (
          s₂,
          rw (e, stepped, ended) refl,
          ready₂,
          queue₂ ∙ ap (with_jobs (λ _. [])) queue₁,
          served s₂ rest,
        )
