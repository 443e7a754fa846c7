-- ===== src/Manager/Threads/Tests.antt =====
-- A manager whose threads the program makes itself: thread 2 of four sets itself up.
use nomad_tasks.Prelude.{ℕ, ◌≡◌, refl, true, false, some, arith, if◌then◌else◌, ◌==◌}
use nomad_tasks.Mpmc.{fresh}
use nomad_tasks.Counter.{counter}
use nomad_tasks.Thread.{no_id}
use nomad_tasks.Manager.{new_tls, blank_job, default_options, with_queues}
use nomad_tasks.Manager.Threads.{Threads, search_id, get_current, setup_thread, shutdown_all}
use nomad_tasks.Manager.Threads.Stopped.{JoinedBy, shutdown_all_self}
use nomad_tasks.Manager.Threads.Setup.{SetUp, setup_thread_lem}

-- Thread 0 has the number 70.
abbrev four : Threads ℕ
four =
    let q = fresh blank_job 4 in
    record {
      manager = record (with_queues (default_options 3) (λ _. counter (λ _. false)) q q q q) {
        tls = λ i. record new_tls { thread_index = i };
      };
      id = λ i. if i == 0 then 70 else no_id;
    }

setup_thread_lem_example :
    (s' : Threads ℕ) × (setup_thread 71 2 four ≡ some (true, s')) × SetUp four 71 2 s'
unfolding search_id get_current
setup_thread_lem_example =
    setup_thread_lem four 71 2 5 (omega arith) refl refl refl (omega arith) refl

-- Thread 1 has the number 72.
abbrev spawned : Threads ℕ
spawned = record four { id = λ i. if i == 1 then 72 else no_id }

shutdown_all_self_example : JoinedBy 1 (shutdown_all true spawned).0
unfolding search_id get_current
shutdown_all_self_example =
    shutdown_all_self spawned 72 1 (λ e. absurd (omega (arith, e))) refl (omega arith)
