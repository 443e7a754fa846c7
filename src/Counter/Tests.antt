-- ===== src/Counter/Tests.antt =====
-- Calls on counters of four slots and of one.
use nomad_tasks.Prelude.{ℕ, ◌<◌, ◌≡◌, refl, false, List, [], ◌∷◌, ◌++◌, arith}
use nomad_tasks.Counter.{
  Counter, Waiter, Ready, waiting, counter, new_counter, add_waiting_fiber, increment, decrement,
}
use nomad_tasks.Counter.Check.{sleepers, swept, modify_lem, modify-sleepers}
use nomad_tasks.Counter.Add.{settled, outcome, add_waiting_fiber-first, wait-decrement}

-- Fiber 7 waits for 0; a counter at 1, and the same with the fiber in its first slot.
abbrev sleeper : Waiter
sleeper = record { fiber = 7; stored = 3; target = 0 }

abbrev at_one : Counter
at_one = record (counter (λ _. false)) { value = 1 }

abbrev parked : Counter
parked = settled 0 sleeper at_one

modify_lem_example :
    (increment 1 (parked, []) ≡ (1, (swept 2 (record parked { value = 2 }), [] ++ [])))
    × (decrement 1 (parked, []) ≡ (1, (swept 0 (record parked { value = 0 }), [] ++ ((7, 3) ∷ []))))
unfolding new_counter settled sleepers
modify_lem_example = modify_lem 1 parked []

modify-sleepers_example :
    let c₁ = (increment 1 (parked, [])).1.0 in
    let c₂ = (decrement 1 (parked, [])).1.0 in
    (sleepers c₁ c₁.value parked.num_waiting_fibers 0 ≡ [])
    × (sleepers c₂ c₂.value parked.num_waiting_fibers 0 ≡ [])
modify-sleepers_example = modify-sleepers 1 parked []

none_before : (j : ℕ) → j < 0 → at_one.free_waiting_slots j ≡ false
none_before j h = absurd (omega arith)

add_waiting_fiber-first_example :
    add_waiting_fiber sleeper at_one ≡ (outcome sleeper at_one, settled 0 sleeper at_one)
unfolding new_counter
add_waiting_fiber-first_example =
    add_waiting_fiber-first sleeper at_one 0 (omega arith) none_before refl

wait-decrement_example :
    (before after : List Ready) × (let (result, c') = add_waiting_fiber sleeper at_one in
      (result ≡ waiting) × ((decrement 1 (c', [])).1.1 ≡ [] ++ (before ++ ((7, 3) ∷ after))))
unfolding new_counter
wait-decrement_example =
    wait-decrement sleeper at_one 0 1 [] (omega arith) none_before refl (λ e. omega arith) refl
