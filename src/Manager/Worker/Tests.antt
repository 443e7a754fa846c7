-- ===== src/Manager/Worker/Tests.antt =====
-- A worker with a job of normal and one of low priority; calls do nothing.
use nomad_tasks.Prelude.{
  ℕ, ◌^◌, ◌+◌, ◌*◌, ◌≡◌, refl, true, false, some, none, List, [], ◌∷◌, arith, dec_lt,
}
use nomad_tasks.Mpmc.{Mpmc, number_cells, fresh, claim_enqueue, write_data, publish}
use nomad_tasks.Mpmc.Create.{create_total}
use nomad_tasks.Mpmc.Fifo.{Valid, contents}
use nomad_tasks.Mpmc.Fifo.Created.{create_refines}
use nomad_tasks.Counter.{counter}
use nomad_tasks.Manager.{normal, Job, Manager, blank_job, default_options, with_queues}
use nomad_tasks.Manager.Jobs.Choosing.Order.{Sizes, Holds}
use nomad_tasks.Manager.Worker.{executes, sleeps, worker_rounds}
use nomad_tasks.Manager.Worker.AtWork.{AtWork}
use nomad_tasks.Manager.Fibers.{cleanup_previous_fiber}
use nomad_tasks.Manager.Jobs.{set_queue, count_up}
use nomad_tasks.Manager.Jobs.Scheduling.{tallied, schedule_job_refines}
use nomad_tasks.Manager.Run.{shutdown}
use nomad_tasks.Manager.Worker.{leaves_loop, to_thread, fiber_callback_main}
use nomad_tasks.Manager.Worker.Stopping.{
  Later, schedules, counts, cleans, perform_all, main-workers_leave,
}
use nomad_tasks.Manager.Worker.Draining.{drain}

abbrev no_jobs : Mpmc (Job ℕ)
no_jobs = fresh blank_job (2 ^ 1)

no_jobs-Valid : Valid 1 no_jobs × (contents 1 no_jobs ≡ [])
no_jobs-Valid =
    create_refines blank_job 1 no_jobs (omega arith) (create_total blank_job 1 (omega arith))

abbrev job : ℕ → Job ℕ
job n = record { callback = some n; counter = none }

-- The queue with one job.
abbrev one_job : ℕ → Mpmc (Job ℕ)
one_job n = publish (write_data (claim_enqueue no_jobs 0) 0 (job n)) 0

one_job-Valid : (n : ℕ) → Valid 1 (one_job n)
unfolding number_cells
one_job-Valid n = record {
  several = omega arith;
  mask = refl;
  order = omega arith;
  room = omega arith;
  filled = λ p ge lt. let e : p ≡ 0 = omega arith in rw e refl;
  vacant = λ p ge lt. elim (dec_lt 1 p) [
    | yes h ↦ let e : p ≡ 2 = omega arith in absurd (omega arith)
    | no h ↦ let e : p ≡ 1 = omega arith in rw e refl
  ];
}

abbrev manager : Manager ℕ
manager =
    with_queues (default_options 4) (λ _. counter (λ _. false)) no_jobs (one_job 5) (one_job 6)
      no_jobs

abbrev two_each : Sizes
two_each = record { high = 1; normal = 1; low = 1; io = 1 }

abbrev idle_call : ℕ → ℕ → Manager ℕ → ℕ × Manager ℕ
idle_call f t m = (t, m)

manager-AtWork : AtWork two_each 1 manager [] (job 5 ∷ []) (job 6 ∷ []) []
unfolding number_cells
manager-AtWork = record {
  small = record {
    high_small = omega arith;
    normal_small = omega arith;
    low_small = omega arith;
    io_small = omega arith;
  };
  holds = record {
    high_valid = no_jobs-Valid.0;
    normal_valid = one_job-Valid 5;
    low_valid = one_job-Valid 6;
    io_valid = no_jobs-Valid.0;
    high_jobs = no_jobs-Valid.1;
    normal_jobs = refl;
    low_jobs = refl;
    io_jobs = no_jobs-Valid.1;
  };
  awake = refl;
  not_io = refl;
  none_ready = refl;
}

-- A call of `f` appends the digit `f` to the number of the next flag.
abbrev notes : ℕ → ℕ → Manager ℕ → ℕ × Manager ℕ
notes f t m = (t, record m { next_stored = m.next_stored * 10 + f })

abbrev noted : Manager ℕ → ℕ
noted m = m.next_stored

abbrev append_digit : ℕ → ℕ → ℕ
append_digit f a = a * 10 + f

drain_example :
    (m' : Manager ℕ) × (worker_rounds notes 3 1 manager
      ≡ some (executes (job 5) ∷ executes (job 6) ∷ sleeps ∷ [], 1, m'))
    × Holds two_each m' [] [] [] []
    × (m'.next_stored ≡ 156)
drain_example =
    drain notes noted append_digit two_each 1 manager [] (job 5 ∷ []) (job 6 ∷ []) [] 1
      (λ f t m. record {
        thread = refl;
        flag = refl;
        record_ = refl;
        high = refl;
        normal = refl;
        low = refl;
        io = refl;
      })
      (record { calls = λ f t m. refl; blind = λ m h n l i. refl }) manager-AtWork
      (refl, (refl, tt))

-- Once the main fiber has ended, a job comes in and a counter goes up.
abbrev late_jobs : List (Later ℕ)
late_jobs = schedules 1 normal (job 7) ∷ cleans 2 ∷ counts true 2 (some 3) ∷ []

late_jobs-perform : (end : Manager ℕ) × (perform_all late_jobs (shutdown manager) ≡ some end)
unfolding number_cells
late_jobs-perform =
    let (q, e, v, c) =
      schedule_job_refines 1 normal (job 7) (shutdown manager) 1 (one_job 5) refl (one_job-Valid 5)
        (omega arith) in
    (
      count_up (some 3) 2
          (cleanup_previous_fiber 2 (set_queue normal q (tallied none 1 (shutdown manager)))),
      rw e refl,
    )

main-workers_leave_example :
    (fiber_callback_main idle_call 0 manager ≡ some (to_thread, shutdown manager))
    × (worker_rounds idle_call 4 2 late_jobs-perform.0
        ≡ some (leaves_loop ∷ [], 2, late_jobs-perform.0))
main-workers_leave_example =
    main-workers_leave idle_call 0 manager late_jobs late_jobs-perform.0 3 2 refl
      late_jobs-perform.1

abbrev no_work : Manager ℕ
no_work =
    with_queues (default_options 4) (λ _. counter (λ _. false)) no_jobs no_jobs no_jobs no_jobs
