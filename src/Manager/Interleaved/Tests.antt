-- ===== src/Manager/Interleaved/Tests.antt =====
-- Two threads: the first leaves fiber 0 waiting and goes on with fiber 2, the second wakes fiber 0 and
-- leaves fiber 1 for it.
use nomad_tasks.Prelude.{
  ℕ, ◌≡◌, ◌≢◌, refl, false, List, [], ◌∷◌, ◌++◌, arith, Bool-cases, inl, inr, ◌==◌,
}
use nomad_tasks.Mpmc.{fresh}
use nomad_tasks.Counter.{counter}
use nomad_tasks.Manager.{blank_job, Manager, default_options, with_queues}
use nomad_tasks.Manager.Fibers.{cleanup_previous_fiber}
use nomad_tasks.Manager.Jobs.{take_ready}
use nomad_tasks.Manager.Interleaved.{
  System, Turn, begin, enter, next, wait, find, wake, current, step, run, start, Homebound,
}
use nomad_tasks.Manager.Interleaved.Ownership.{New, one_thread, ready_resumed}

abbrev pub manager : Manager ℕ
manager =
    let q = fresh blank_job 4 in with_queues (default_options 4) (λ _. counter (λ _. false)) q q q q

pub manager-New : New manager
manager-New = record { nothing_left = λ t. refl; nothing_ready = λ t. refl; idle = λ f. refl }

abbrev pub to_ready : List (ℕ × Turn)
to_ready =
    (1, begin 0)
    ∷ (1, enter)
    ∷ (2, begin 1)
    ∷ (2, enter)
    ∷ (1, wait)
    ∷ (1, find 2)
    ∷ (1, enter)
    ∷ (2, wake 0)
    ∷ []

to_ready-Homebound : Homebound to_ready (start manager)
unfolding step cleanup_previous_fiber
to_ready-Homebound = (tt, (refl, (tt, (refl, (tt, (tt, (refl, (tt, tt))))))))

abbrev pub resumed : List (ℕ × Turn)
resumed = to_ready ++ ((2, next false) ∷ (2, enter) ∷ [])

pub resumed-Homebound : Homebound resumed (start manager)
unfolding step cleanup_previous_fiber take_ready
resumed-Homebound = (tt, (refl, (tt, (refl, (tt, (tt, (refl, (tt, (tt, (refl, tt))))))))))

abbrev at_end : System ℕ
at_end = run resumed (start manager)

one_thread_example :
    (current at_end 1 ≢ current at_end 2) × (at_end.shared.idle_fibers (current at_end 1) ≡ false)
unfolding run cleanup_previous_fiber take_ready
one_thread_example =
    one_thread manager manager-New resumed resumed-Homebound 1 2 (λ e. absurd (omega (arith, e)))
      (λ e. cc) (λ e. cc)

abbrev at_ready : System ℕ
at_ready = run to_ready (start manager)

ready_resumed_example : current (step (2, next false) at_ready) 2 ≡ 0
unfolding run cleanup_previous_fiber take_ready
ready_resumed_example =
    ready_resumed manager manager-New to_ready to_ready-Homebound 2 0 1 [] refl refl refl (λ u e.
      elim (Bool-cases (1 == u)) [
        | inl a ↦ rw a ((λ x. cc), (λ x. cc))
        | inr a ↦ elim (Bool-cases (2 == u)) [
          | inl b ↦ rw (a, b) ((λ x. cc), (λ x. cc))
          | inr b ↦ rw (a, b) ((λ x. cc), (λ x. cc))
        ]
      ])
