-- ===== src/Manager/Interleaved/Stale.antt =====
-- `GetNextJob` (ManagerJobs.cpp) hands `CleanupPreviousFiber` the record of the thread that it began on,
-- also where its fiber has gone to the pool and is resumed by another thread.
use nomad_tasks.Prelude.{ℕ, ◌≡◌, refl, false, none, List, [], ◌∷◌}
use nomad_tasks.Mpmc.{Mpmc}
use nomad_tasks.Counter.{Counter}
use nomad_tasks.Manager.{Job, default_options, with_queues}
use nomad_tasks.Manager.Fibers.{cleanup_previous_fiber}
use nomad_tasks.Manager.Jobs.{take_ready}
use nomad_tasks.Manager.Interleaved.{
  System, Turn, running, begin, enter, next, wait, find, wake, run, start,
}

-- Thread 1 leaves fiber 0 waiting for fiber 1, which resumes it, and so is left in `GetNextJob`. Then
-- thread 2 leaves fiber 2 waiting for fiber 1, and both counters have been reached.
abbrev pub reused : List (ℕ × Turn)
reused =
    (1, begin 0)
    ∷ (1, enter)
    ∷ (1, wait)
    ∷ (1, find 1)
    ∷ (1, enter)
    ∷ (1, wake 0)
    ∷ (1, next false)
    ∷ (1, enter)
    ∷ (2, begin 2)
    ∷ (2, enter)
    ∷ (2, wait)
    ∷ (2, find 1)
    ∷ (2, enter)
    ∷ (2, wake 0)
    ∷ []

module _ {F : Type 0} (cores : ℕ) (counters : ℕ → Counter) (q₁ q₂ q₃ q₄ : Mpmc (Job F)) where
  abbrev pub end : System F
  end = run reused (start (with_queues (default_options cores) counters q₁ q₂ q₃ q₄))

  -- On a manager with the default options a fiber that has been left, and whose counter has been
  -- reached, may never be told to have been left: no thread is at a switch, fiber 2 is ready on thread 2,
  -- its flag is not set, and `GetNextJob` there passes it by.
  pub ready_fiber_lost :
      (end.pc 1 ≡ running)
      × (end.pc 2 ≡ running)
      × ((end.shared.tls 2).ready_fibers ≡ (2, 2) ∷ [])
      × ((end.shared.tls 2).current_fiber ≡ 1)
      × (end.shared.stored 2 ≡ false)
      × (take_ready end.shared.stored (end.shared.tls 2).ready_fibers ≡ none)
  unfolding run cleanup_previous_fiber take_ready
  ready_fiber_lost = (refl, refl, refl, refl, refl, refl)
