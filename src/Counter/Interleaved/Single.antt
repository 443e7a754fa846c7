-- ===== src/Counter/Interleaved/Single.antt =====
-- One call of `AddWaitingFiber` on a new counter (Counter.cpp), among any number of calls of
-- `Increment` and `Decrement`: the life of slot 0, and what each thread may be doing meanwhile.
pub mod Phases
pub mod Kept
pub mod Adder
pub mod Checker
pub mod Steps
pub mod Outcome
use nomad_tasks.Prelude.{
  ℕ, zero, suc, ◌+◌, ◌≤◌, ◌<◌, ◌≡◌, ◌≢◌, ◌⊎◌, inl, inr, refl, Bool, true, false, List, [], ◌∷◌,
  ◌&&◌, ◌==◌, arith, update, Bool-cases, if◌then◌else◌, ltb,
}
use nomad_tasks.Counter.{Counter, Waiter, Added, done_already, waiting, slots_full}
use nomad_tasks.Counter.Interleaved.{
  Pc, Turn, Shared, System, advance, turn, step, run, start, changed, call_add, call_modify, go,
  idle, add_acquire, add_setup, add_publish, add_load, add_in_use, add_target, add_cas, add_release,
  add_done, modify, check_free, check_in_use, check_target, check_cas, check_push, check_release,
}

-- The life of the slot: not yet taken; taken; published; claimed by thread `t`, which is about to
-- make the fiber ready; made ready by `t`; claimed by the waiter itself; given up by it.
pub data Phase : Type 0 where
  unborn : Phase
  taken : Phase
  published : Phase
  claimed : (t : ℕ) → Phase
  woken : (t : ℕ) → Phase
  withdrawn : Phase
  gone : Phase

-- After the slot was published, and while the waiter has not taken it back.
abbrev pub Seen : Phase → Type 0
Seen published = Unit {0}
Seen (claimed t) = Unit {0}
Seen (woken t) = Unit {0}
Seen _ = ⊥

-- The slot has been published.
abbrev pub Born : Phase → Type 0
Born unborn = ⊥
Born taken = ⊥
Born _ = Unit {0}

-- The waiter has to go on with its call.
abbrev pub Busy : Phase → Type 0
Busy unborn = Unit {0}
Busy taken = Unit {0}
Busy withdrawn = Unit {0}
Busy _ = ⊥

module _ (a : ℕ) (w : Waiter) where
  abbrev pub Filled : Shared → Type 0
  Filled s =
      ((s.counter.waiting_fibers 0).fiber_index ≡ w.fiber)
      × ((s.counter.waiting_fibers 0).fiber_stored ≡ w.stored)
      × ((s.counter.waiting_fibers 0).target_value ≡ w.target)

  -- Shared memory in each phase.
  abbrev pub Holds : Phase → Shared → Type 0
  Holds unborn s =
      (s.counter.free_waiting_slots 0 ≡ true)
      × ((s.counter.waiting_fibers 0).in_use ≡ true)
      × (s.ready ≡ [])
  Holds taken s =
      (s.counter.free_waiting_slots 0 ≡ false)
      × ((s.counter.waiting_fibers 0).in_use ≡ true)
      × (s.ready ≡ [])
  Holds published s =
      (s.counter.free_waiting_slots 0 ≡ false)
      × ((s.counter.waiting_fibers 0).in_use ≡ false)
      × (s.ready ≡ [])
      × Filled s
  Holds (claimed t) s =
      (s.counter.free_waiting_slots 0 ≡ false)
      × ((s.counter.waiting_fibers 0).in_use ≡ true)
      × (s.ready ≡ [])
      × Filled s
  Holds (woken t) s =
      ((s.counter.waiting_fibers 0).in_use ≡ true)
      × (s.ready ≡ (t, (w.fiber, w.stored)) ∷ [])
      × Filled s
  Holds withdrawn s =
      (s.counter.free_waiting_slots 0 ≡ false)
      × ((s.counter.waiting_fibers 0).in_use ≡ true)
      × (s.ready ≡ [])
      × Filled s
  Holds gone s =
      (s.counter.free_waiting_slots 0 ≡ true)
      × ((s.counter.waiting_fibers 0).in_use ≡ true)
      × (s.ready ≡ [])
      × Filled s

  -- Where thread `t` may stand.
  abbrev pub Fits : Phase → Shared → ℕ → Pc → Type 0
  Fits ph s t idle = t ≡ a → ¬ Busy ph
  Fits ph s t (add_acquire v i) = (t ≡ a) × (v ≡ w) × (i ≡ 0) × (ph ≡ unborn)
  Fits ph s t (add_setup v i) = (t ≡ a) × (v ≡ w) × (i ≡ 0) × (ph ≡ taken)
  Fits ph s t (add_publish v i) = (t ≡ a) × (v ≡ w) × (i ≡ 0) × (ph ≡ taken) × Filled s
  Fits ph s t (add_load v i) = (t ≡ a) × (v ≡ w) × (i ≡ 0) × Seen ph
  Fits ph s t (add_in_use v i c) = (t ≡ a) × (v ≡ w) × (i ≡ 0) × Seen ph
  Fits ph s t (add_target v i c) = (t ≡ a) × (v ≡ w) × (i ≡ 0) × Seen ph
  Fits ph s t (add_cas v i) = (t ≡ a) × (v ≡ w) × (i ≡ 0) × Seen ph
  Fits ph s t (add_release v i) = (t ≡ a) × (v ≡ w) × (i ≡ 0) × (ph ≡ withdrawn)
  Fits ph s t (add_done v r) =
      (t ≡ a) × (v ≡ w) × (((r ≡ waiting) × Seen ph) ⊎ ((r ≡ done_already) × (ph ≡ gone)))
  Fits ph s t (modify up by) = t ≡ a → ¬ Busy ph
  Fits ph s t (check_free v i) = t ≡ a → ¬ Busy ph
  Fits ph s t (check_in_use v i) = (t ≡ a → ¬ Busy ph) × (i ≡ 0)
  Fits ph s t (check_target v i) = (t ≡ a → ¬ Busy ph) × (i ≡ 0) × Born ph
  Fits ph s t (check_cas v i) = (t ≡ a → ¬ Busy ph) × (i ≡ 0) × Born ph × (v ≡ w.target)
  Fits ph s t (check_push v i) = (i ≡ 0) × (ph ≡ claimed t) × (v ≡ w.target)
  Fits ph s t (check_release v i) = (i ≡ 0) × (ph ≡ woken t)

  -- A thread that is sure to look at the slot, or is looking at it, with the target value.
  abbrev pub watches : Pc → Bool
  watches (add_load v i) = true
  watches (add_in_use v i c) = c == w.target
  watches (add_target v i c) = c == w.target
  watches (add_cas v i) = true
  watches (check_free v i) = (v == w.target) && (i == 0)
  watches (check_in_use v i) = v == w.target
  watches (check_target v i) = v == w.target
  watches (check_cas v i) = true
  watches _ = false

abbrev pub pushes : Pc → Bool
pushes (check_push v i) = true
pushes _ = false
