-- ===== src/Manager.antt =====
-- code/fiber: the manager's state (Manager.h, TLS.h), its constructor (Manager.cpp), and the records of
-- jobs that its queues hold (Job.h). The manager's operations are in Manager/Fibers.antt,
-- Manager/Jobs.antt and Manager/Run.antt, each for a thread that no other interrupts.
pub mod Fibers
pub mod Jobs
pub mod Created
pub mod Run
pub mod Interleaved
pub mod Worker
pub mod Threads
pub mod Switching
pub mod Blocking
pub mod Tests
use nomad_tasks.Prelude.{
  ◌>>=◌, ℕ, ◌+◌, ◌-◌, ◌%◌, ◌^◌, Bool, true, false, Option, some, none, List, [], update,
}
use nomad_tasks.Mpmc.{Mpmc, create}
use nomad_tasks.Counter.{Counter, Ready}

-- `JobPriority`; `unnamed` stands for the bytes that name none.
pub data JobPriority : Type 0 where
  high : JobPriority
  normal : JobPriority
  low : JobPriority
  io : JobPriority
  unnamed : ℕ → JobPriority

-- `JobInfo`: what is called, of a type `F` of stored calls, and the number of the counter; `none`
-- stands for `nullptr`.
pub record Job (F : Type 0) : Type 0 where
  pub callback : Option F
  pub counter : Option ℕ

pub data FiberDestination : Type 0 where
  nowhere : FiberDestination  -- `None`
  to_waiting : FiberDestination
  to_pool : FiberDestination

-- `TLS`; the thread's own fiber belongs to the operating system. `previous_stored` is the number of a
-- flag, 0 for `nullptr`.
pub record Tls : Type 0 where
  pub thread_index : ℕ
  pub has_affinity : Bool
  pub is_io : Bool
  pub current_fiber : ℕ
  pub previous_fiber : ℕ
  pub previous_stored : ℕ
  pub previous_destination : FiberDestination
  pub ready_fibers : List Ready

-- `UINT16_MAX`
abbrev pub no_index : ℕ
no_index = 2 ^ 16 - 1

abbrev pub new_tls : Tls
new_tls = record {
  thread_index = 2 ^ 8 - 1;
  has_affinity = false;
  is_io = false;
  current_fiber = no_index;
  previous_fiber = no_index;
  previous_stored = 0;
  previous_destination = nowhere;
  ready_fibers = [];
}

-- `TLS::Cleanup`
abbrev pub cleanup : Tls → Tls
cleanup t = record t {
  previous_fiber = no_index;
  previous_destination = nowhere;
  previous_stored = 0;
}

-- `ManagerOptions`
pub record ManagerOptions : Type 0 where
  pub num_threads : ℕ
  pub num_fibers : ℕ
  pub thread_affinity : Bool
  pub auto_spawn_threads : Bool
  pub high_priority_queue_size : ℕ
  pub normal_priority_queue_size : ℕ
  pub low_priority_queue_size : ℕ
  pub io_queue_size : ℕ
  pub shutdown_after_main : Bool

-- The defaults, on a machine of `cores` cores.
abbrev pub default_options : ℕ → ManagerOptions
default_options cores = record {
  num_threads = cores;
  num_fibers = 25;
  thread_affinity = false;
  auto_spawn_threads = true;
  high_priority_queue_size = 512;
  normal_priority_queue_size = 2048;
  low_priority_queue_size = 4096;
  io_queue_size = 32;
  shutdown_after_main = true;
}

-- `Manager`, with the objects that its pointers and those of its jobs refer to: the records of the
-- threads, the counters, and the flags that say whether a waiting fiber has been left. Flags are
-- numbered in the order of their `new`, and none is used again. `threads_made` and `fibers_made` say
-- that `_threads` and `_fibers` are not `nullptr`, `spawned` which threads have been spawned, and
-- `main_fiber` which fiber has `FiberCallback_Main`; all others have `FiberCallback_Worker`.
pub record Manager (F : Type 0) : Type 0 where
  pub shutting_down : Bool
  pub num_threads : ℕ
  pub has_thread_affinity : Bool
  pub auto_spawn_threads : Bool
  pub shutdown_after_main : Bool
  pub num_fibers : ℕ
  pub idle_fibers : ℕ → Bool
  pub threads_made : Bool
  pub fibers_made : Bool
  pub spawned : ℕ → Bool
  pub main_callback : Option F
  pub main_fiber : Option ℕ
  pub high_priority_queue : Mpmc (Job F)
  pub normal_priority_queue : Mpmc (Job F)
  pub low_priority_queue : Mpmc (Job F)
  pub io_queue : Mpmc (Job F)
  pub tls : ℕ → Tls
  pub counters : ℕ → Counter
  pub stored : ℕ → Bool
  pub next_stored : ℕ
  -- Where the compare-exchange of `FindFreeFiber` fails spuriously.
  pub weak_fails : ℕ → Bool

module _ {F : Type 0} where
  abbrev pub blank_job : Job F
  blank_job = record { callback = none; counter = none }

  -- The manager of the given queues, before `Run`; `counters` are those of the program.
  abbrev pub with_queues :
      ManagerOptions
      → (ℕ → Counter)
      → Mpmc (Job F)
      → Mpmc (Job F)
      → Mpmc (Job F)
      → Mpmc (Job F)
      → Manager F
  with_queues o counters high_queue normal_queue low_queue io_queue = record {
    shutting_down = false;
    num_threads = (o.num_threads + 1) % 2 ^ 8;
    has_thread_affinity = o.thread_affinity;
    auto_spawn_threads = o.auto_spawn_threads;
    shutdown_after_main = o.shutdown_after_main;
    num_fibers = o.num_fibers;
    idle_fibers = λ _. true;
    threads_made = false;
    fibers_made = false;
    spawned = λ _. false;
    main_callback = none;
    main_fiber = none;
    high_priority_queue = high_queue;
    normal_priority_queue = normal_queue;
    low_priority_queue = low_queue;
    io_queue = io_queue;
    tls = λ _. new_tls;
    counters = counters;
    stored = λ _. false;
    next_stored = 1;
    weak_fails = λ _. false;
  }

  -- The constructor; `none` is a failed assertion of a queue's constructor.
  unfoldable pub new_manager : ManagerOptions → (ℕ → Counter) → Option (Manager F)
  unfolding create
  new_manager o counters = do
    high_queue ← create blank_job o.high_priority_queue_size
    normal_queue ← create blank_job o.normal_priority_queue_size
    low_queue ← create blank_job o.low_priority_queue_size
    io_queue ← create blank_job o.io_queue_size
    some (with_queues o counters high_queue normal_queue low_queue io_queue)

  abbrev pub set_tls : ℕ → Tls → Manager F → Manager F
  set_tls t l m = record m { tls = update m.tls t l }
