-- ===== src/Mpmc/Concurrent/Tests.antt =====
-- Schedules of two threads on a queue of two cells.
use nomad_tasks.Prelude.{
  ℕ, ◌+◌, ◌^◌, ◌≡◌, refl, false, some, arith, List, [], ◌∷◌, ◌++◌, replicate, ◌⊎◌, ◌≤◌, ◌-ℤ◌,
  to_intptr,
}
use nomad_tasks.Mpmc.{Mpmc, fresh, create}
use nomad_tasks.Mpmc.Create.{create_total}
use nomad_tasks.Mpmc.Fifo.{Valid, contents}
use nomad_tasks.Mpmc.Concurrent.{Turn, System, call_enqueue, call_dequeue, go, idle, run, start}
use nomad_tasks.Mpmc.Concurrent.Invariant.{reads, writes, Once}
use nomad_tasks.Mpmc.Concurrent.Safety.{
  Taken, cell_exclusive, received_sent, never_over_capacity, enqueue_full, dequeue_empty,
  quiescent_contents,
}

abbrev two_cells : Mpmc ℕ
two_cells = fresh 0 (2 ^ 1)

two_cells-made : create 0 (2 ^ 1) ≡ some two_cells
two_cells-made = create_total 0 1 (omega arith)

abbrev goes : ℕ → ℕ → List (ℕ × Turn ℕ)
goes i n = replicate n (i, go false)

-- A whole `enqueue`, and a whole `dequeue`.
abbrev sends : ℕ → ℕ → List (ℕ × Turn ℕ)
sends i x = (i, call_enqueue x) ∷ goes i 6

abbrev receives : ℕ → List (ℕ × Turn ℕ)
receives i = (i, call_dequeue) ∷ goes i 6

abbrev after : List (ℕ × Turn ℕ) → System ℕ
after es = run es (start two_cells 0)

-- Thread 0 has claimed the first cell, thread 1 the second.
abbrev both_claimed : List (ℕ × Turn ℕ)
both_claimed = (0, call_enqueue 5) ∷ goes 0 3 ++ ((1, call_enqueue 6) ∷ goes 1 3)

abbrev second : ℕ
second = 1

cell_exclusive_example : second ≡ second
unfolding run ◌-ℤ◌ to_intptr fresh
cell_exclusive_example =
    cell_exclusive 0 1 two_cells (omega arith) two_cells-made both_claimed (omega arith) second
      second 1 1 refl refl refl

-- The first item taken out while the second is written.
abbrev passed_on : List (ℕ × Turn ℕ)
passed_on = sends 0 5 ++ both_claimed ++ receives 2

received_sent_example :
    Taken
      (after passed_on).shared.sent
      (after passed_on).shared.queue.dequeue_pos
      (after passed_on).shared.received
    × Once (after passed_on).shared.received
received_sent_example =
    received_sent 0 1 two_cells (omega arith) two_cells-made passed_on (omega arith)

never_over_capacity_example :
    ((after passed_on).shared.queue.dequeue_pos ≤ (after passed_on).shared.queue.enqueue_pos)
    × ((after passed_on).shared.queue.enqueue_pos
        ≤ (after passed_on).shared.queue.dequeue_pos + 2 ^ 1)
never_over_capacity_example =
    never_over_capacity 0 1 two_cells (omega arith) two_cells-made passed_on (omega arith)

-- Two items sent, and a third call about to load the sequence of the first cell.
abbrev filled_up : List (ℕ × Turn ℕ)
filled_up = sends 0 5 ++ sends 1 6 ++ ((0, call_enqueue 7) ∷ goes 0 1)

enqueue_full_example :
    ((after filled_up).shared.queue.enqueue_pos
      ≡ (after filled_up).shared.queue.dequeue_pos + 2 ^ 1)
    ⊎ ((j r : ℕ) × (r + 2 ^ 1 ≡ (after filled_up).shared.queue.enqueue_pos)
        × (reads ((after filled_up).pc j) ≡ some r))
unfolding run ◌-ℤ◌ to_intptr fresh
enqueue_full_example =
    enqueue_full 0 1 two_cells (omega arith) two_cells-made filled_up (omega arith) 0 false 7 2 refl
      refl

-- One item claimed by its sender and not written yet, and a receiver about to look for it.
abbrev half_sent : List (ℕ × Turn ℕ)
half_sent = (0, call_enqueue 5) ∷ goes 0 3 ++ ((1, call_dequeue) ∷ goes 1 1)

dequeue_empty_example :
    ((after half_sent).shared.queue.dequeue_pos ≡ (after half_sent).shared.queue.enqueue_pos)
    ⊎ ((j : ℕ) × (writes ((after half_sent).pc j)
          ≡ some (after half_sent).shared.queue.dequeue_pos))
unfolding run ◌-ℤ◌ to_intptr fresh
dequeue_empty_example =
    dequeue_empty 0 1 two_cells (omega arith) two_cells-made half_sent (omega arith) 1 false 0 refl
      refl

-- Two items sent and one taken out.
abbrev at_rest : List (ℕ × Turn ℕ)
at_rest = sends 0 5 ++ sends 0 6 ++ receives 0

at_rest-idle : (i : ℕ) → (after at_rest).pc i ≡ idle
unfolding run ◌-ℤ◌ to_intptr fresh
at_rest-idle i = ground arith

quiescent_contents_example :
    Valid 1 (after at_rest).shared.queue × (contents 1 (after at_rest).shared.queue ≡ 6 ∷ [])
unfolding run ◌-ℤ◌ to_intptr fresh
quiescent_contents_example =
    quiescent_contents 0 1 two_cells (omega arith) two_cells-made at_rest (omega arith) at_rest-idle
