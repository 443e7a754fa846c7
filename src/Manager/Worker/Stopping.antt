-- ===== src/Manager/Worker/Stopping.antt =====
-- The end of the main fiber (ManagerCallbacks.cpp), and what workers do from then on, whatever jobs there
-- are.
use nomad_tasks.Prelude.{
  ◌>>=◌, ℕ, suc, ◌≡◌, refl, ◌∙◌, Bool, true, false, Option, some, List, [], ◌∷◌, arith, bind-some,
  if◌then◌else◌,
}
use nomad_tasks.Manager.{JobPriority, Job, Manager}
use nomad_tasks.Manager.Fibers.{cleanup_previous_fiber}
use nomad_tasks.Manager.Jobs.{count_up, count_down, schedule_job, get_next_job, wait_for_counter}
use nomad_tasks.Manager.Jobs.Flag.{
  Flag, of_same, schedule_job-Flag, get_next_job-Flag, wait_for_counter-Flag, count_up-Flag,
  count_down-Flag, cleanup-Flag,
}
use nomad_tasks.Manager.Run.{shutdown}
use nomad_tasks.Manager.Worker.{
  to_thread, leaves_loop, call_main, after_main, fiber_callback_main, worker_round, worker_rounds,
}

-- What the threads may still do, each on the thread given.
pub data Later (F : Type 0) : Type 0 where
  schedules : (thread : ℕ) (prio : JobPriority) (job : Job F) → Later F
  takes : (thread : ℕ) → Later F  -- `GetNextJob`
  waits : (thread : ℕ) (counter : Option ℕ) (target : ℕ) → Later F
  counts : (up : Bool) (thread : ℕ) (counter : Option ℕ) → Later F
  cleans : (thread : ℕ) → Later F  -- `CleanupPreviousFiber`

module _ {F : Type 0} where
  abbrev pub perform : Later F → Manager F → Option (Manager F)
  perform (schedules t prio job) m = do r ← schedule_job t prio job m; some r.1
  perform (takes t) m = do r ← get_next_job t m; some r.1
  perform (waits t c target) m = do r ← wait_for_counter t c target m; some r.1
  perform (counts up t c) m = some (if up then count_up c t m else count_down c t m)
  perform (cleans t) m = some (cleanup_previous_fiber t m)

  abbrev pub perform_all : List (Later F) → Manager F → Option (Manager F)
  perform_all [] m = some m
  perform_all (o ∷ os) m = perform o m >>= perform_all os

  perform-Flag : (o : Later F) (m m' : Manager F) → perform o m ≡ some m' → Flag m m'
  perform-Flag (schedules t prio job) m m' e =
      let (r, d, f) = bind-some (schedule_job t prio job m) _ m' e in
      let same : r.1 ≡ m' = ground arith in
      of_same r.1 m' same ∙ schedule_job-Flag t prio job m r.1 r.0 d
  perform-Flag (takes t) m m' e =
      let (r, d, f) = bind-some (get_next_job t m) _ m' e in
      let same : r.1 ≡ m' = ground arith in of_same r.1 m' same ∙ get_next_job-Flag t m r.1 r.0 d
  perform-Flag (waits t c target) m m' e =
      let (r, d, f) = bind-some (wait_for_counter t c target m) _ m' e in
      let same : r.1 ≡ m' = ground arith in
      of_same r.1 m' same ∙ wait_for_counter-Flag t c target m r.1 r.0 d
  perform-Flag (counts true t c) m m' e =
      let same : count_up c t m ≡ m' = ground arith in
      of_same (count_up c t m) m' same ∙ count_up-Flag c t m
  perform-Flag (counts false t c) m m' e =
      let same : count_down c t m ≡ m' = ground arith in
      of_same (count_down c t m) m' same ∙ count_down-Flag c t m
  perform-Flag (cleans t) m m' e =
      let same : cleanup_previous_fiber t m ≡ m' = ground arith in
      of_same (cleanup_previous_fiber t m) m' same ∙ cleanup-Flag t m

  perform_all-Flag :
      (os : List (Later F)) (m m' : Manager F) → perform_all os m ≡ some m' → Flag m m'
  perform_all-Flag [] m m' e = let same : m ≡ m' = ground arith in of_same m m' same
  perform_all-Flag (o ∷ os) m m' e =
      let (m₁, d, f) = bind-some (perform o m) (perform_all os) m' e in
      perform_all-Flag os m₁ m' f ∙ perform-Flag o m m₁ d

module _ {F : Type 0} (call : F → ℕ → Manager F → ℕ × Manager F) where
  -- Where the manager is to shut down after the main callback, the main fiber ends with a switch back to
  -- its thread. Whatever jobs are scheduled, taken, waited for and counted, and whatever fibers handed
  -- back, from then on, a worker on any thread leaves its loop at the start of its next round, and
  -- executes no job, also where the queues have some.
  pub main-workers_leave :
      (t : ℕ) (m : Manager F) (os : List (Later F)) (end : Manager F) (n u : ℕ)
      → (call_main call m.main_callback t m).1.shutdown_after_main ≡ true
      → perform_all os (shutdown (call_main call m.main_callback t m).1) ≡ some end
      → (fiber_callback_main call t m
          ≡ some (to_thread, shutdown (call_main call m.main_callback t m).1))
        × (worker_rounds call (suc n) u end ≡ some (leaves_loop ∷ [], u, end))
  unfolding fiber_callback_main after_main worker_rounds worker_round
  main-workers_leave t m os end n u e ended =
      let m₁ = (call_main call m.main_callback t m).1 in
      (rw e refl, rw (perform_all-Flag os (shutdown m₁) end ended) refl)
