-- ===== src/Manager/Tests.antt =====
-- A manager whose queues have two cells each.
use nomad_tasks.Prelude.{
  ℕ, ◌+◌, ◌^◌, ◌<◌, ◌≡◌, refl, true, false, some, [], ◌∷◌, if◌then◌else◌, arith, update,
}
use nomad_tasks.Mpmc.{Mpmc, fresh}
use nomad_tasks.Mpmc.Create.{create_total, create-Fresh}
use nomad_tasks.Mpmc.Fifo.{push, Valid, contents}
use nomad_tasks.Mpmc.Fifo.Created.{create_refines}
use nomad_tasks.Counter.{Counter, counter}
use nomad_tasks.Manager.{
  high, Job, ManagerOptions, Manager, new_tls, blank_job, default_options, with_queues, new_manager,
  set_tls,
}
use nomad_tasks.Manager.Jobs.{queued, queue_full, set_queue, schedule_job, get_next_job}
use nomad_tasks.Manager.Jobs.Scheduling.{tallied, schedule_job_refines}
use nomad_tasks.Manager.Jobs.Choosing.Order.{
  Sizes, Holds, Small, Chosen, choose, resumable, get_next_job_refines,
}
use nomad_tasks.Manager.Run.{
  enters, run, Numbered, Spares, spawn_threads, make_threads, make_fibers, run-enters,
}
use nomad_tasks.Manager.Created.{new_manager-Holds}

abbrev pub two_cells : Mpmc (Job ℕ)
two_cells = fresh blank_job (2 ^ 1)

pub two_cells-Valid : Valid 1 two_cells × (contents 1 two_cells ≡ [])
two_cells-Valid =
    create_refines blank_job 1 two_cells (omega arith) (create_total blank_job 1 (omega arith))

pub two_cells-small : two_cells.enqueue_pos + 2 ^ 1 < 2 ^ 63
two_cells-small =
    let new = create-Fresh blank_job 1 two_cells (create_total blank_job 1 (omega arith)) in
    omega (arith, new.enqueue_zero)

abbrev two_each : Sizes
two_each = record { high = 1; normal = 1; low = 1; io = 1 }

-- Every counter is at 1. Thread 1 runs fiber 4 and can resume fiber 9.
abbrev at_one : Counter
at_one = record (counter (λ _. false)) { value = 1 }

abbrev some_options : ManagerOptions
some_options = record (default_options 4) {
  high_priority_queue_size = 2;
  normal_priority_queue_size = 2;
  low_priority_queue_size = 2;
  io_queue_size = 2;
}

abbrev pub manager : Manager ℕ
manager =
    set_tls 1 (record new_tls { current_fiber = 4; ready_fibers = (8, 2) ∷ (9, 1) ∷ [] })
      (record (with_queues some_options (λ _. at_one) two_cells two_cells two_cells two_cells) {
        stored = update (λ _. false) 1 true;
        next_stored = 3;
      })

manager-Holds : Holds two_each manager [] [] [] []
manager-Holds = record {
  high_valid = two_cells-Valid.0;
  normal_valid = two_cells-Valid.0;
  low_valid = two_cells-Valid.0;
  io_valid = two_cells-Valid.0;
  high_jobs = two_cells-Valid.1;
  normal_jobs = two_cells-Valid.1;
  low_jobs = two_cells-Valid.1;
  io_jobs = two_cells-Valid.1;
}

manager-Small : Small two_each manager
manager-Small = record {
  high_small = two_cells-small;
  normal_small = two_cells-small;
  low_small = two_cells-small;
  io_small = two_cells-small;
}

abbrev job : Job ℕ
job = record { callback = some 7; counter = some 0 }

schedule_job_refines_example :
    let (ok, jobs) = push (2 ^ 1) job (contents 1 two_cells) in
    (q' : Mpmc (Job ℕ)) × (schedule_job 1 high job manager
      ≡ some ((if ok then queued else queue_full), set_queue high q' (tallied (some 0) 1 manager)))
    × Valid 1 q'
    × (contents 1 q' ≡ jobs)
schedule_job_refines_example =
    schedule_job_refines 1 high job manager 1 two_cells refl two_cells-Valid.0 two_cells-small

get_next_job_refines_example :
    Chosen two_each (get_next_job 1 manager) (choose false (resumable 1 manager) [] [] [] [])
get_next_job_refines_example =
    get_next_job_refines 1 two_each manager [] [] [] [] manager-Small manager-Holds

new_manager-Holds_example :
    (m : Manager ℕ) × (new_manager (default_options 4) (λ _. at_one) ≡ some m)
    × Holds (record { high = 9; normal = 11; low = 12; io = 5 }) m [] [] [] []
    × Small (record { high = 9; normal = 11; low = 12; io = 5 }) m
new_manager-Holds_example =
    new_manager-Holds (default_options 4) (λ _. at_one)
      (record { high = 9; normal = 11; low = 12; io = 5 })
      (record { several = omega arith; power = refl; bound = omega arith })
      (record { several = omega arith; power = refl; bound = omega arith })
      (record { several = omega arith; power = refl; bound = omega arith })
      (record { several = omega arith; power = refl; bound = omega arith })

-- The threads that were spawned have taken fibers 0 and 1.
abbrev two_taken : Manager ℕ → Manager ℕ
two_taken m = record m { idle_fibers = update (update m.idle_fibers 0 false) 1 false }

two_taken-Spares : Spares 2 two_taken
two_taken-Spares = record {
  fibers = λ m. refl;
  index = λ m i. refl;
  io = λ m i. refl;
  kept = λ m. refl;
}

run-enters_example :
    (f : ℕ) × (m' : Manager ℕ) × (run 4 (λ _. true) two_taken (some 7) manager
      ≡ some (enters f, m'))
    × (let spawned = (spawn_threads (λ _. true) 5 0 (make_fibers (make_threads manager))).1 in
        (two_taken spawned).idle_fibers f ≡ true)
    × (m'.main_fiber ≡ some f)
    × (m'.idle_fibers f ≡ false)
    × ((m'.tls 0).current_fiber ≡ f)
    × Numbered 5 4 (m'.tls 4)
run-enters_example =
    run-enters 4 (λ _. true) two_taken 7 manager 4 2 refl refl (omega arith) refl (λ _. refl)
      two_taken-Spares (omega arith)
