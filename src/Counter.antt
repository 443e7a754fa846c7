-- ===== src/Counter.antt =====
-- code/fiber/include/fiber/Counter.h and code/fiber/Counter.cpp: the counter that fibers wait on.
-- The loops of `AddWaitingFiber` and `CheckWaitingFibers` are cut into their accesses to shared
-- memory, which the uninterrupted calls below and Counter/Interleaved.antt both use.
pub mod Check
pub mod Add
pub mod Interleaved
pub mod Tests
use nomad_tasks.Prelude.{
  ℕ, zero, suc, ◌+◌, ◌-◌, ◌%◌, ◌^◌, Bool, true, false, List, [], ◌∷◌, ◌++◌, ◌==◌, if◌then◌else◌,
  update,
}

-- `Unit_t` is `uint32_t`, and wraps at this bound.
abbrev pub unit_mod : ℕ
unit_mod = 2 ^ 32

-- `UINT16_MAX`, which stands for no fiber
abbrev pub no_fiber : ℕ
no_fiber = 2 ^ 16 - 1

-- `WaitingFibers`; a pointer to an `atomic_bool` is the number of its cell, 0 for `nullptr`.
pub record WaitingFiber : Type 0 where
  pub fiber_index : ℕ
  pub fiber_stored : ℕ
  pub target_value : ℕ
  pub in_use : Bool

-- `BaseCounter`, with the arrays that its two pointers refer to.
pub record Counter : Type 0 where
  pub value : ℕ
  pub num_waiting_fibers : ℕ
  pub waiting_fibers : ℕ → WaitingFiber
  pub free_waiting_slots : ℕ → Bool

-- An entry of `TLS::_readyFibers`.
abbrev pub Ready : Type 0
Ready = ℕ × ℕ

-- The arguments of `AddWaitingFiber`.
pub record Waiter : Type 0 where
  pub fiber : ℕ
  pub stored : ℕ
  pub target : ℕ

-- `InternalInit`, from slot `i` with `n` rounds left.
unfoldable pub free_slots : ℕ → ℕ → (ℕ → Bool) → ℕ → Bool
free_slots zero i b = b
free_slots (suc n) i b = free_slots n (i + 1) (update b i true)

-- The constructors. The flags of the slots are not initialised before `InternalInit`: `old` is what
-- stands there.
unfoldable pub new_counter : (ℕ → Bool) → ℕ → Counter
unfolding free_slots
new_counter old n = record {
  value = 0;
  num_waiting_fibers = n;
  waiting_fibers =
      λ _. record { fiber_index = no_fiber; fiber_stored = 0; target_value = 0; in_use = true };
  free_waiting_slots = free_slots n 0 old;
}

-- `Counter::MAX_WAITING`
abbrev pub max_waiting : ℕ
max_waiting = 4

-- `Counter(mgr)` and `TinyCounter(mgr)`
abbrev pub counter : (ℕ → Bool) → Counter
counter old = new_counter old max_waiting

abbrev pub tiny_counter : (ℕ → Bool) → Counter
tiny_counter old = new_counter old 1

-- The accesses. `acquire` is the effect of a compare-exchange of a slot's flag that succeeds.
abbrev pub acquire : ℕ → Counter → Counter
acquire i c = record c { free_waiting_slots = update c.free_waiting_slots i false }

abbrev pub release_slot : ℕ → Counter → Counter
release_slot i c = record c { free_waiting_slots = update c.free_waiting_slots i true }

abbrev pub set_slot : ℕ → WaitingFiber → Counter → Counter
set_slot i f c = record c { waiting_fibers = update c.waiting_fibers i f }

abbrev pub setup_slot : ℕ → Waiter → Counter → Counter
setup_slot i w c =
    set_slot i
      (record (c.waiting_fibers i) {
        fiber_index = w.fiber;
        fiber_stored = w.stored;
        target_value = w.target;
      })
      c

abbrev pub store_in_use : ℕ → Bool → Counter → Counter
store_in_use i b c = set_slot i (record (c.waiting_fibers i) { in_use = b }) c

-- `fetch_add(by)` and `fetch_sub(by)`, and the sums that are handed to `CheckWaitingFibers`.
abbrev pub plus : ℕ → ℕ → ℕ
plus v by = (v + by) % unit_mod

abbrev pub minus : ℕ → ℕ → ℕ
minus v by = (v + unit_mod - by) % unit_mod

-- What `AddWaitingFiber` ends with; `slots_full` is EX_COUNTER_WAITINGS_SLOTS_FULL.
pub data Added : Type 0 where
  done_already : Added
  waiting : Added
  slots_full : Added

-- The slot's part of `AddWaitingFiber`, with no other thread at work.
pub fill_slot : ℕ → Waiter → Counter → Added × Counter
fill_slot i w c =
    let c' = store_in_use i false (setup_slot i w (acquire i c)) in
    if (c'.waiting_fibers i).in_use
    then (waiting, c')
    else if (c'.waiting_fibers i).target_value == c'.value
    then (if (c'.waiting_fibers i).in_use
        then (waiting, c')
        else (done_already, release_slot i (store_in_use i true c')))
    else (waiting, c')

-- `AddWaitingFiber`, from slot `i` with `n` rounds left.
pub add_loop : ℕ → ℕ → Waiter → Counter → Added × Counter
add_loop zero i w c = (slots_full, c)
add_loop (suc n) i w c =
    let next = add_loop n (i + 1) w c in if c.free_waiting_slots i then fill_slot i w c else next

pub add_waiting_fiber : Waiter → Counter → Added × Counter
unfolding add_loop fill_slot
add_waiting_fiber w c = add_loop c.num_waiting_fibers 0 w c

-- The slot's part of `CheckWaitingFibers`, with the list of ready fibers of the calling thread.
pub check_slot : ℕ → ℕ → Counter × List Ready → Counter × List Ready
check_slot value i (c, ready) =
    let slot = c.waiting_fibers i in
    if c.free_waiting_slots i
    then (c, ready)
    else if slot.in_use
    then (c, ready)
    else if slot.target_value == value
    then (
      release_slot i (store_in_use i true c),
      ready ++ ((slot.fiber_index, slot.fiber_stored) ∷ []),
    )
    else (c, ready)

pub check_loop : ℕ → ℕ → ℕ → Counter × List Ready → Counter × List Ready
check_loop zero i value s = s
check_loop (suc n) i value s = check_loop n (i + 1) value (check_slot value i s)

pub check_waiting_fibers : ℕ → Counter × List Ready → Counter × List Ready
unfolding check_loop check_slot
check_waiting_fibers value s = check_loop s.0.num_waiting_fibers 0 value s

-- `Increment` and `Decrement` give back the value before.
pub increment : ℕ → Counter × List Ready → ℕ × (Counter × List Ready)
unfolding check_waiting_fibers
increment by (c, ready) =
    let value = plus c.value by in
    (c.value, check_waiting_fibers value (record c { value = value }, ready))

pub decrement : ℕ → Counter × List Ready → ℕ × (Counter × List Ready)
unfolding check_waiting_fibers
decrement by (c, ready) =
    let value = minus c.value by in
    (c.value, check_waiting_fibers value (record c { value = value }, ready))
