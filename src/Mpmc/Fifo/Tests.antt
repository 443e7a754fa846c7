-- ===== src/Mpmc/Fifo/Tests.antt =====
-- Calls on a queue of two cells.
use nomad_tasks.Prelude.{ℕ, ◌^◌, ◌≡◌, refl, some, [], arith, dec_lt}
use nomad_tasks.Mpmc.{Mpmc, fresh, claim_enqueue, write_data, publish, enqueue, dequeue}
use nomad_tasks.Mpmc.Create.{create_total}
use nomad_tasks.Mpmc.Fifo.{push, pop, Valid, contents}
use nomad_tasks.Mpmc.Fifo.Created.{create_refines}
use nomad_tasks.Mpmc.Fifo.Refine.{enqueue_refines, dequeue_refines}

abbrev two_cells : Mpmc ℕ
two_cells = fresh 0 (2 ^ 1)

two_cells-Valid : Valid 1 two_cells
two_cells-Valid = (create_refines 0 1 two_cells (omega arith) (create_total 0 1 (omega arith))).0

enqueue_refines_example :
    let (r, xs) = push 2 7 (contents 1 two_cells) in
    (q' : Mpmc ℕ) × (enqueue 7 two_cells ≡ some (r, q')) × Valid 1 q' × (contents 1 q' ≡ xs)
unfolding fresh
enqueue_refines_example = enqueue_refines 1 two_cells two_cells-Valid (omega arith) 7

-- The queue with one item.
abbrev one_item : Mpmc ℕ
one_item = publish (write_data (claim_enqueue two_cells 0) 0 7) 0

one_item-Valid : Valid 1 one_item
unfolding fresh
one_item-Valid = record {
  several = omega arith;
  mask = refl;
  order = omega arith;
  room = omega arith;
  filled = λ p ge lt. let e : p ≡ 0 = omega arith in rw e refl;
  vacant = λ p ge lt. elim (dec_lt 1 p) [
    | yes h ↦ let e : p ≡ 2 = omega arith in absurd (omega arith)
    | no h ↦ let e : p ≡ 1 = omega arith in rw e refl
  ];
}

dequeue_refines_example :
    (q' : Mpmc ℕ) × (dequeue one_item ≡ some (some 7, q')) × Valid 1 q' × (contents 1 q' ≡ [])
unfolding fresh pop
dequeue_refines_example = dequeue_refines 1 one_item one_item-Valid (omega arith)
