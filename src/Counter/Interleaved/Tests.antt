-- ===== src/Counter/Interleaved/Tests.antt =====
-- Schedules of two or three threads on a counter.
use nomad_tasks.Prelude.{ℕ, ◌≡◌, ◌⊎◌, refl, Bool, false, List, [], ◌∷◌, ◌++◌, replicate, arith}
use nomad_tasks.Counter.{new_counter}
use nomad_tasks.Counter.Interleaved.{Turn, System, call_modify, go, idle, run}
use nomad_tasks.Counter.Interleaved.Single.Outcome.{
  Outcome, called, woken_at_most_once, done-not_woken, wait_outcome,
}
use nomad_tasks.Counter.Interleaved.Reuse.{sleeper}

abbrev unset : ℕ → Bool
unset i = false

abbrev goes : ℕ → ℕ → List (ℕ × Turn)
goes t n = replicate n (t, go)

-- Thread 1 waits for 0 on a counter of one slot at 1, which thread 2 takes to 0: up to the entry of
-- the fiber into a ready list, after it, and to the end of both calls.
abbrev up_to_push : List (ℕ × Turn)
up_to_push = goes 1 3 ++ ((2, call_modify false 1) ∷ goes 2 5)

abbrev pushed : List (ℕ × Turn)
pushed = up_to_push ++ goes 2 1

abbrev ended : List (ℕ × Turn)
ended = pushed ++ goes 2 2 ++ goes 1 4

abbrev after : List (ℕ × Turn) → System
after es = run es (called unset 1 1 1 (sleeper 7 3))

woken_at_most_once_example :
    ((after pushed).shared.ready ≡ [])
    ⊎ ((t : ℕ) × ((after pushed).shared.ready ≡ (t, (7, 3)) ∷ []))
woken_at_most_once_example = woken_at_most_once unset 1 1 1 (sleeper 7 3) (omega arith) pushed tt

-- Thread 2 takes the counter to 0 before thread 1 loads it.
abbrev reached : List (ℕ × Turn)
reached = goes 1 3 ++ ((2, call_modify false 1) ∷ goes 2 1) ++ goes 1 5

done-not_woken_example : (after reached).shared.ready ≡ []
unfolding run new_counter
done-not_woken_example = done-not_woken unset 1 1 1 (sleeper 7 3) (omega arith) reached tt refl

ended-idle : (t : ℕ) → (after ended).pc t ≡ idle
unfolding run new_counter
ended-idle t = ground arith

wait_outcome_example : Outcome unset 1 1 1 (sleeper 7 3) (omega arith) ended tt
wait_outcome_example = wait_outcome unset 1 1 1 (sleeper 7 3) (omega arith) ended tt ended-idle
