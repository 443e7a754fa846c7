-- ===== src/Queue/Tests.antt =====
-- A queue of two jobs, and one whose job finds no room.
use nomad_tasks.Prelude.{
  ℕ, suc, ◌+◌, ◌^◌, ◌<◌, ◌≡◌, refl, true, false, some, none, List, [], ◌∷◌, ◌++◌, length, arith,
}
use mathlib.Core.List.{map}
use nomad_tasks.Mpmc.{Mpmc}
use nomad_tasks.Mpmc.Fifo.{contents}
use nomad_tasks.Counter.{counter, new_counter}
use nomad_tasks.Manager.{JobPriority, high, normal, low, io, unnamed, Job, Manager}
use nomad_tasks.Manager.Fibers.{cleanup_previous_fiber, hand_back}
use nomad_tasks.Manager.Tests.{manager, two_cells, two_cells-Valid, two_cells-small}
use nomad_tasks.Manager.Jobs.Single.Resumed.{AtRest}
use nomad_tasks.Queue.{Queue, ran, no_jobs, At, add, execute}
use nomad_tasks.Queue.Executed.{is_named, Sound, Open, Serves, Served, add-Sound, execute-all}

abbrev calm : Manager ℕ
calm = record manager { counters = λ _. counter (λ _. false) }

abbrev blank : Queue ℕ
blank = record { default_priority = normal; counter = 2; jobs = [] }

-- The first job is of high priority and had another counter.
abbrev first_job : Job ℕ
first_job = record { callback = some 7; counter = some 0 }

abbrev second_job : Job ℕ
second_job = record { callback = some 8; counter = none }

abbrev two_jobs : List (JobPriority × Job ℕ)
two_jobs =
    (high, record { callback = some 7; counter = some 2 })
    ∷ (normal, record { callback = some 8; counter = some 2 })
    ∷ []

added : (add normal second_job (add high first_job blank)).jobs ≡ two_jobs
unfolding add
added = refl

abbrev start : At ℕ
start = record { thread = 1; manager = calm; queue = record blank { jobs = two_jobs } }

-- The other threads take the job out and end it, and resume the fiber on thread 1.
abbrev away : At ℕ → At ℕ
away s = record s { thread = 1; manager = calm }

calm-Open : Open 2 calm
unfolding new_counter
calm-Open = record {
  takes = takes;
  unused = record { at_zero = refl; some_slot = omega arith; first_free = refl };
  fiber = 0;
  in_pool = omega arith;
  idle = refl;
}
  where
    room : length (contents 1 two_cells) < 2 ^ 1
    room = rw two_cells-Valid.1 (omega arith)

    takes :
        (prio : JobPriority)
        → is_named prio ≡ true
        → (k : ℕ) × (q : Mpmc (Job ℕ)) × AtRest prio k q calm × (length (contents k q) < 2 ^ k)
    takes high e = (
      1,
      two_cells,
      record { named = refl; valid = two_cells-Valid.0; small = two_cells-small },
      room,
    )
    takes normal e = (
      1,
      two_cells,
      record { named = refl; valid = two_cells-Valid.0; small = two_cells-small },
      room,
    )
    takes low e = (
      1,
      two_cells,
      record { named = refl; valid = two_cells-Valid.0; small = two_cells-small },
      room,
    )
    takes io e = (
      1,
      two_cells,
      record { named = refl; valid = two_cells-Valid.0; small = two_cells-small },
      room,
    )
    takes (unnamed b) e = absurd (ground arith)

away-Serves : Serves away 2
unfolding cleanup_previous_fiber hand_back
away-Serves s m prio job g open_ e = (calm-Open, refl)

two_jobs-Sound : Sound 2 two_jobs
unfolding add
two_jobs-Sound =
    add-Sound normal second_job (add high first_job blank) refl
      (add-Sound high first_job blank refl tt)

execute-all_example :
    (s' : At ℕ) × (execute away (2 + suc 0) start
      ≡ some (map (λ j. ran j.0 j.1) two_jobs ++ (no_jobs ∷ []), s'))
    × Open 2 s'.manager
    × (s'.queue ≡ record start.queue { jobs = [] })
    × Served away 2 two_jobs start s'
execute-all_example =
    execute-all away 2 0 two_jobs start away-Serves calm-Open refl refl two_jobs-Sound
