-- ===== src/Counter/Interleaved.antt =====
-- `AddWaitingFiber`, `Increment` and `Decrement` of one counter (Counter.cpp), called by any number
-- of threads and interleaved by a schedule, a step of a thread being one access to the counter.
-- Atomic accesses take effect in the order of the steps, which weaker orderings do not promise.
pub mod Single
pub mod Reuse
pub mod Tests
use nomad_tasks.Prelude.{
  ℕ, suc, ◌+◌, Bool, true, false, Option, none, some, List, [], ◌∷◌, ◌++◌, ltb, ◌==◌, if◌then◌else◌,
  update,
}
use nomad_tasks.Counter.{
  Counter, Waiter, Ready, Added, done_already, waiting, slots_full, plus, minus, acquire,
  release_slot, setup_slot, store_in_use,
}

-- Where a thread stands, with its live local variables: `i` is the slot that the loop is at.
pub data Pc : Type 0 where
  idle : Pc
  add_acquire : (w : Waiter) (i : ℕ) → Pc  -- before the compare-exchange of the slot's flag
  add_setup : (w : Waiter) (i : ℕ) → Pc
  add_publish : (w : Waiter) (i : ℕ) → Pc  -- before `_inUse.store(false)`
  add_load : (w : Waiter) (i : ℕ) → Pc  -- before the load of the counter
  add_in_use : (w : Waiter) (i value : ℕ) → Pc  -- before the load of `_inUse`
  add_target : (w : Waiter) (i value : ℕ) → Pc  -- before the comparison with the slot's target
  add_cas : (w : Waiter) (i : ℕ) → Pc  -- before the compare-exchange of `_inUse`
  add_release : (w : Waiter) (i : ℕ) → Pc
  add_done : (w : Waiter) (result : Added) → Pc
  modify : (up : Bool) (by : ℕ) → Pc  -- before the `fetch_add` or `fetch_sub`
  check_free : (value i : ℕ) → Pc  -- before the load of the slot's flag
  check_in_use : (value i : ℕ) → Pc
  check_target : (value i : ℕ) → Pc
  check_cas : (value i : ℕ) → Pc
  check_push : (value i : ℕ) → Pc  -- before `emplace_back`
  check_release : (value i : ℕ) → Pc

-- What the schedule lets a thread do: begin a call, or go on.
pub data Turn : Type 0 where
  call_add : Waiter → Turn
  call_modify : (up : Bool) (by : ℕ) → Turn
  go : Turn

-- The counter, and the fibers made ready, with the thread that holds them, in order.
pub record Shared : Type 0 where
  pub counter : Counter
  pub ready : List (ℕ × Ready)

abbrev pub on : (Counter → Counter) → Shared → Shared
on f s = record s { counter = f s.counter }

-- `prev + by` or `prev - by`
abbrev pub changed : Bool → ℕ → ℕ → ℕ
changed up v by = if up then plus v by else minus v by

-- One access of thread `t` at the given place.
pub advance : ℕ → Shared → Pc → Shared × Pc
advance t s idle = (s, idle)
advance t s (add_acquire w i) =
    if ltb i s.counter.num_waiting_fibers
    then (if s.counter.free_waiting_slots i
        then (on (acquire i) s, add_setup w i)
        else (s, add_acquire w (i + 1)))
    else (s, add_done w slots_full)
advance t s (add_setup w i) = (on (setup_slot i w) s, add_publish w i)
advance t s (add_publish w i) = (on (store_in_use i false) s, add_load w i)
advance t s (add_load w i) = (s, add_in_use w i s.counter.value)
advance t s (add_in_use w i v) =
    if (s.counter.waiting_fibers i).in_use then (s, add_done w waiting) else (s, add_target w i v)
advance t s (add_target w i v) =
    if (s.counter.waiting_fibers i).target_value == v
    then (s, add_cas w i)
    else (s, add_done w waiting)
advance t s (add_cas w i) =
    if (s.counter.waiting_fibers i).in_use
    then (s, add_done w waiting)
    else (on (store_in_use i true) s, add_release w i)
advance t s (add_release w i) = (on (release_slot i) s, add_done w done_already)
advance t s (add_done w r) = (s, idle)
advance t s (modify up by) =
    let v = changed up s.counter.value by in (on (λ c. record c { value = v }) s, check_free v 0)
advance t s (check_free v i) =
    if ltb i s.counter.num_waiting_fibers
    then (if s.counter.free_waiting_slots i
        then (s, check_free v (i + 1))
        else (s, check_in_use v i))
    else (s, idle)
advance t s (check_in_use v i) =
    if (s.counter.waiting_fibers i).in_use then (s, check_free v (i + 1)) else (s, check_target v i)
advance t s (check_target v i) =
    if (s.counter.waiting_fibers i).target_value == v
    then (s, check_cas v i)
    else (s, check_free v (i + 1))
advance t s (check_cas v i) =
    if (s.counter.waiting_fibers i).in_use
    then (s, check_free v (i + 1))
    else (on (store_in_use i true) s, check_push v i)
advance t s (check_push v i) =
    let slot = s.counter.waiting_fibers i in
    (
      record s { ready = s.ready ++ ((t, (slot.fiber_index, slot.fiber_stored)) ∷ []) },
      check_release v i,
    )
advance t s (check_release v i) = (on (release_slot i) s, check_free v (i + 1))

-- A call begins only where no other is under way.
pub turn : ℕ → Turn → Shared → Pc → Shared × Pc
unfolding advance
turn t (call_add w) s idle = (s, add_acquire w 0)
turn t (call_add w) s p = (s, p)
turn t (call_modify up by) s idle = (s, modify up by)
turn t (call_modify up by) s p = (s, p)
turn t go s p = advance t s p

pub record System : Type 0 where
  pub shared : Shared
  pub pc : ℕ → Pc

pub step : ℕ × Turn → System → System
unfolding turn
step (t, a) s =
    let (m, p) = turn t a s.shared (s.pc t) in record { shared = m; pc = update s.pc t p }

pub run : List (ℕ × Turn) → System → System
unfolding step
run [] s = s
run (e ∷ es) s = run es (step e s)

abbrev pub start : Counter → System
start c = record { shared = record { counter = c; ready = [] }; pc = λ _. Pc.idle }
