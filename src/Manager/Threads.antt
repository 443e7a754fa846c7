-- ===== src/Manager/Threads.antt =====
-- The manager's threads (Manager.cpp, ManagerThreads.cpp): the search for the calling thread's object,
-- `GetThread`, `SpawnThread`, `SetupThread`, and `Shutdown` with its joins. The number that the
-- operating system gives to a thread is a parameter.
pub mod Setup
pub mod Stopped
pub mod Tests
use nomad_tasks.Prelude.{
  ◌>>=◌, ℕ, zero, suc, ◌+◌, ◌-◌, ◌^◌, Bool, true, false, not, ◌&&◌, Option, some, none, List, [],
  ◌∷◌, ltb, ◌==◌, if◌then◌else◌, update, is_some,
}
use nomad_tasks.Thread.{no_id, has_spawned}
use nomad_tasks.Manager.{Manager, Tls, set_tls}
use nomad_tasks.Manager.Fibers.{find_free_fiber}
use nomad_tasks.Manager.Run.{shutdown}

-- The manager and its `Thread` objects, of which this needs the numbers (`_id`).
pub record Threads (F : Type 0) : Type 0 where
  pub manager : Manager F
  pub id : ℕ → ℕ

-- The loop of `GetCurrentThreadIndex`, `GetCurrentThread` and `GetCurrentTLS`, from `i` with `n` left.
unfoldable pub search_id : ℕ → ℕ → (ℕ → ℕ) → ℕ → Option ℕ
search_id zero i id calling = none
search_id (suc n) i id calling =
    let next = search_id n (i + 1) id calling in if id i == calling then some i else next

-- The threads from `i`, with `n` left, that `Join` waits for.
pub joined : ℕ → ℕ → (ℕ → ℕ) → List ℕ
joined zero i id = []
joined (suc n) i id =
    let next = joined n (i + 1) id in if has_spawned (id i) then i ∷ next else next

abbrev pub or_max : Option ℕ → ℕ
or_max none = 2 ^ 8 - 1
or_max (some i) = i

abbrev pub or_no_id : Option ℕ → ℕ
or_no_id none = no_id
or_no_id (some n) = n

module _ {F : Type 0} where
  -- `GetCurrentThread` and `GetCurrentTLS`, called on the thread with number `calling`; `none` is
  -- `nullptr`.
  unfoldable pub get_current : ℕ → Threads F → Option ℕ
  unfolding search_id
  get_current calling s = search_id s.manager.num_threads 0 s.id calling

  -- `GetCurrentThreadIndex`
  pub get_current_thread_index : ℕ → Threads F → ℕ
  unfolding get_current
  get_current_thread_index calling s = or_max (get_current calling s)

  -- `GetThread`; `none` is a failed assertion.
  abbrev pub get_thread : ℕ → Threads F → Option ℕ
  get_thread idx s = if ltb idx s.manager.num_threads then some idx else none

  -- `SpawnThread`, where the operating system gives the new thread the number `created`, or no thread.
  pub spawn_thread : ℕ → Option ℕ → Threads F → Option (Bool × Threads F)
  spawn_thread idx created s = do
    i ← get_thread idx s
    let n = or_no_id created
    some (has_spawned n, record s { id = update s.id i n })

  -- `assert(tls->_threadIndex == idx)`
  abbrev pub check_index : ℕ → ℕ → Threads F → Option ℕ
  check_index idx i s = if (s.manager.tls i).thread_index == idx then some i else none

  -- `SetupThread` from `FromCurrentThread` on. `none` is a failed assertion, or a `FindFreeFiber` that
  -- goes on looking.
  pub take_over : ℕ → ℕ → Threads F → Option (Bool × Threads F)
  unfolding get_current find_free_fiber
  take_over calling idx s = do
    i ← get_current calling s
    j ← check_index idx i s
    r ← find_free_fiber s.manager
    let m = set_tls j (record (r.1.tls j) { current_fiber = r.0 }) r.1
    some (true, record s { manager = m })

  -- `SetupThread`, called on the thread with number `calling`.
  pub setup_thread : ℕ → ℕ → Threads F → Option (Bool × Threads F)
  unfolding take_over
  setup_thread calling idx s = do
    i ← get_thread idx s
    let known = has_spawned (s.id i)
    let current = is_some (get_current calling s)
    if known
        then some (false, s)
        else if current
        then some (false, s)
        else take_over calling idx (record s { id = update s.id i calling })

  -- `Shutdown`; with it, the threads that it waits for.
  pub shutdown_all : Bool → Threads F → List ℕ × Threads F
  unfolding joined
  shutdown_all blocking s =
      let s' = record s { manager = shutdown s.manager } in
      (if blocking then joined (s.manager.num_threads - 1) 1 s.id else [], s')
