-- ===== src/Manager/Worker.antt =====
-- ManagerCallbacks.cpp: the callbacks of the threads, of the main fiber and of the worker fibers, cut
-- where they switch to another fiber, for a thread that no other interrupts.
pub mod Stopping
pub mod AtWork
pub mod Draining
pub mod Begun
pub mod GivenBack
pub mod Scheduled
pub mod Returning
pub mod Tests
use nomad_tasks.Prelude.{
  ◌>>=◌, ℕ, zero, suc, Bool, true, false, ◌&&◌, not, Option, none, some, List, [], ◌∷◌,
  if◌then◌else◌,
}
use nomad_tasks.Manager.{Job, Manager, set_tls}
use nomad_tasks.Manager.Fibers.{find_free_fiber, cleanup_previous_fiber}
use nomad_tasks.Manager.Jobs.{Next, found, nothing, resumes, get_next_job, execute}
use nomad_tasks.Manager.Run.{shutdown}

-- How a callback ends: it switches to a fiber, or back to its thread.
pub data End : Type 0 where
  to_fiber : (fiber : ℕ) → End
  to_thread : End

-- What a round of a worker's loop does: it executes a job, sleeps, switches to a fiber, or leaves the
-- loop and switches back to its thread.
pub data Round (F : Type 0) : Type 0 where
  executes : (job : Job F) → Round F
  sleeps : Round F
  switches : (fiber : ℕ) → Round F
  leaves_loop : Round F

module _ {F : Type 0} where
  -- `tls->_currentFiberIndex = FindFreeFiber()` and the switch, on thread `t`.
  pub go_to_idle : ℕ → Manager F → Option (End × Manager F)
  unfolding find_free_fiber
  go_to_idle t m = do
    r ← find_free_fiber m
    some (to_fiber r.0, set_tls t (record (r.1.tls t) { current_fiber = r.0 }) r.1)

  -- `ThreadCallback_Worker`
  pub thread_callback_worker : ℕ → Manager F → Option (End × Manager F)
  unfolding go_to_idle
  thread_callback_worker t m = go_to_idle t m

  abbrev pub has_callback : Option F → Bool
  has_callback none = false
  has_callback (some f) = true

module _ {F : Type 0} (call : F → ℕ → Manager F → ℕ × Manager F) where
  -- `_mainCallback(manager)` on thread `t`; with it, the thread that it comes back on.
  abbrev pub call_main : Option F → ℕ → Manager F → ℕ × Manager F
  call_main none t m = (t, m)
  call_main (some f) t m = call f t m

  -- `FiberCallback_Main` after the callback. Nothing switches back to the main fiber once it has
  -- switched to an idle one, so what would follow that is not reached.
  pub after_main : ℕ → Manager F → Option (End × Manager F)
  unfolding go_to_idle
  after_main t m =
      if not m.shutdown_after_main && has_callback m.main_callback
      then go_to_idle t m
      else some (to_thread, if m.shutdown_after_main then shutdown m else m)

  -- `FiberCallback_Main`
  pub fiber_callback_main : ℕ → Manager F → Option (End × Manager F)
  unfolding after_main
  fiber_callback_main t m = let (u, m') = call_main m.main_callback t m in after_main u m'

  -- A round of the loop of `FiberCallback_Worker` on thread `t`.
  pub after_next : ℕ → Next F × Manager F → Round F × ℕ × Manager F
  unfolding execute
  after_next t (found job, m) = let (u, m') = execute call job t m in (executes job, u, m')
  after_next t (nothing, m) = (sleeps, t, m)
  after_next t (resumes f, m) = (switches f, t, m)

  pub worker_round : ℕ → Manager F → Option (Round F × ℕ × Manager F)
  unfolding after_next
  worker_round t m =
      let next = get_next_job t m in
      if m.shutting_down then some (leaves_loop, t, m) else (do r ← next; some (after_next t r))

  -- The round after, while the fiber has the thread.
  abbrev pub go_on :
      (ℕ → Manager F → Option (List (Round F) × ℕ × Manager F))
      → Round F × ℕ × Manager F
      → Option (List (Round F) × ℕ × Manager F)
  go_on rounds (executes job, t, m) = do r ← rounds t m; some (executes job ∷ r.0, r.1, r.2)
  go_on rounds (sleeps, t, m) = do r ← rounds t m; some (sleeps ∷ r.0, r.1, r.2)
  go_on rounds (switches f, t, m) = some (switches f ∷ [], t, m)
  go_on rounds (leaves_loop, t, m) = some (leaves_loop ∷ [], t, m)

  -- At most `n` rounds.
  pub worker_rounds : ℕ → ℕ → Manager F → Option (List (Round F) × ℕ × Manager F)
  unfolding worker_round
  worker_rounds zero t m = some ([], t, m)
  worker_rounds (suc n) t m = worker_round t m >>= go_on (worker_rounds n)

  -- `FiberCallback_Worker`, up to its `n`th round.
  pub fiber_callback_worker : ℕ → ℕ → Manager F → Option (List (Round F) × ℕ × Manager F)
  unfolding worker_rounds cleanup_previous_fiber
  fiber_callback_worker n t m = worker_rounds n t (cleanup_previous_fiber t m)
