-- ===== src/Counter/Interleaved/Reuse.antt =====
-- A slot that is given back and taken again while another thread still looks at its first use
-- (Counter.cpp, `AddWaitingFiber` lines 88-97 and `CheckWaitingFibers` lines 113-127): `_inUse` is
-- compared, but nothing tells the second use from the first.
use nomad_tasks.Prelude.{ℕ, ◌≡◌, refl, Bool, true, false, List, [], ◌∷◌, ◌++◌, replicate}
use nomad_tasks.Counter.{Waiter, counter, new_counter, done_already, waiting}
use nomad_tasks.Counter.Interleaved.{Turn, System, call_add, call_modify, go, add_done, run, start}

abbrev on_turn : ℕ → ℕ → List (ℕ × Turn)
on_turn t n = replicate n (t, go)

-- A fiber that waits for 0.
abbrev pub sleeper : ℕ → ℕ → Waiter
sleeper fiber stored = record { fiber = fiber; stored = stored; target = 0 }

-- A counter at 1.
abbrev at_one : (ℕ → Bool) → System
at_one old = start (record (counter old) { value = 1 })

-- Thread 1 publishes its slot; thread 3 takes the counter to 0; thread 1 reads 0 and finds its slot
-- unclaimed; thread 3 claims it, makes the fiber ready and gives the slot back; thread 2 takes the
-- slot for another fiber; thread 1 claims what is now that fiber's slot.
abbrev stolen_slot : Waiter → Waiter → List (ℕ × Turn)
stolen_slot v w =
    (1, call_add v) ∷ on_turn 1 3
    ++ ((3, call_modify false 1) ∷ on_turn 3 1)
    ++ on_turn 1 2
    ++ on_turn 3 6
    ++ ((2, call_add w) ∷ on_turn 2 3)
    ++ on_turn 1 3
    ++ on_turn 2 2

-- Two fibers that wait for 0 on one counter, on a schedule where the first is told that it need not
-- wait and is also made ready, and the second is told to wait, with the counter at 0, its slot free
-- again, and no entry in a ready list.
second_fiber_lost :
    (old : ℕ → Bool) (fiber stored fiber' stored' : ℕ)
    → let v = sleeper fiber stored in
      let w = sleeper fiber' stored' in
      let end = run (stolen_slot v w) (at_one old) in
      (end.pc 1 ≡ add_done v done_already)
      × (end.pc 2 ≡ add_done w waiting)
      × (end.shared.ready ≡ (3, (fiber, stored)) ∷ [])
      × (end.shared.counter.value ≡ 0)
      × (end.shared.counter.free_waiting_slots 0 ≡ true)
unfolding run new_counter
second_fiber_lost old fiber stored fiber' stored' = (refl, refl, refl, refl, refl)

-- Thread 3 takes the counter to 0 and stops before its compare-exchange; thread 1, which saw the 0
-- itself, goes on, counts the next job and waits in the same slot; thread 3 claims it.
abbrev stale_claim : Waiter → Waiter → List (ℕ × Turn)
stale_claim v w =
    (1, call_add v) ∷ on_turn 1 3
    ++ ((3, call_modify false 1) ∷ on_turn 3 4)
    ++ on_turn 1 6
    ++ ((1, call_modify true 1) ∷ on_turn 1 6)
    ++ ((1, call_add w) ∷ on_turn 1 7)
    ++ on_turn 3 3

-- One fiber that waits for 0 twice on one counter, with a job counted in between, on a schedule
-- where it is made ready from the second wait though the counter is at 1.
woken_off_target :
    (old : ℕ → Bool) (fiber stored stored' : ℕ)
    → let w = sleeper fiber stored' in
      let end = run (stale_claim (sleeper fiber stored) w) (at_one old) in
      (end.shared.ready ≡ (3, (fiber, stored')) ∷ []) × (end.shared.counter.value ≡ 1)
unfolding run new_counter
woken_off_target old fiber stored stored' = (refl, refl)
