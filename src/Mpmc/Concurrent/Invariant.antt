-- ===== src/Mpmc/Concurrent/Invariant.antt =====
-- What holds of the queue and of each thread, for a queue of `2 ^ k` cells after `n` steps.
use nomad_tasks.Prelude.{
  ℕ, ◌+◌, ◌-◌, ◌%◌, ◌^◌, ◌≤◌, ◌<◌, ◌≡◌, ◌≢◌, Option, none, some, List, [], ◌∷◌, arith,
}
use nomad_tasks.Mpmc.Concurrent.{
  Pc, Shared, System, enqueue_test, enqueue_cas, enqueue_write, enqueue_publish, dequeue_test,
  dequeue_cas, dequeue_read, dequeue_release,
}

module _ {A : Type 0} where
  -- The position that a thread owns as a writer, and as a reader.
  abbrev pub writes : Pc A → Option ℕ
  writes (enqueue_write x p) = some p
  writes (enqueue_publish x p) = some p
  writes _ = none

  abbrev pub reads : Pc A → Option ℕ
  reads (dequeue_read p) = some p
  reads (dequeue_release p x) = some p
  reads _ = none

  -- No position twice.
  abbrev pub Absent : ℕ → List (ℕ × A) → Type 0
  Absent a [] = Unit {0}
  Absent a ((p, x) ∷ r) = (p ≢ a) × Absent a r

  abbrev pub Once : List (ℕ × A) → Type 0
  Once [] = Unit {0}
  Once ((p, x) ∷ r) = Absent p r × Once r

  module _ (k : ℕ) (s : Shared A) where
    -- The cell of a position, by remainder.
    abbrev pub seq : ℕ → ℕ
    seq p = (s.queue.buffer (p % 2 ^ k)).sequence

    abbrev pub content : ℕ → A
    content p = (s.queue.buffer (p % 2 ^ k)).content

    -- The locals of a thread against shared memory.
    abbrev pub Agrees : Pc A → Type 0
    Agrees (enqueue_test x p) = (p ≤ s.queue.enqueue_pos) × Unit {0}
    Agrees (enqueue_cas x p) =
        (p ≤ s.queue.enqueue_pos) × (s.queue.enqueue_pos ≤ p → seq p ≡ p) × Unit {0}
    Agrees (enqueue_write x p) = (p < s.queue.enqueue_pos) × (seq p ≡ p) × (s.sent p ≡ x)
    Agrees (enqueue_publish x p) =
        (p < s.queue.enqueue_pos) × (seq p ≡ p) × (s.sent p ≡ x) × (content p ≡ x)
    Agrees (dequeue_test p) = (p ≤ s.queue.dequeue_pos) × Unit {0}
    Agrees (dequeue_cas p) =
        (p ≤ s.queue.dequeue_pos) × (s.queue.dequeue_pos ≤ p → seq p ≡ p + 1) × Unit {0}
    Agrees (dequeue_read p) = (p < s.queue.dequeue_pos) × (seq p ≡ p + 1) × Unit {0}
    Agrees (dequeue_release p x) = (p < s.queue.dequeue_pos) × (seq p ≡ p + 1) × (s.sent p ≡ x)
    Agrees _ = Unit {0}

    -- An item taken out was sent at its position, and its cell has been given back.
    abbrev pub Delivered : List (ℕ × A) → Type 0
    Delivered [] = Unit {0}
    Delivered ((p, x) ∷ r) =
        (p < s.queue.dequeue_pos) × (p + 2 ^ k ≤ seq p) × (s.sent p ≡ x) × Delivered r

    -- The cells: each stands at most one round ahead; one with sequence `p` is free for the item
    -- of position `p`, and one with `p + 1` holds it.
    pub record Cells (n : ℕ) : Type 0 where
      pub several : 1 ≤ k
      pub mask : s.queue.buffer_mask ≡ 2 ^ k - 1
      pub steps : s.queue.enqueue_pos ≤ n
      pub order : s.queue.dequeue_pos ≤ s.queue.enqueue_pos
      pub room : s.queue.enqueue_pos ≤ s.queue.dequeue_pos + 2 ^ k
      pub ahead : (p : ℕ) → seq p ≤ s.queue.dequeue_pos + 2 ^ k
      pub free_cell : (p : ℕ) → seq p ≡ p → p < s.queue.dequeue_pos + 2 ^ k
      pub full_cell : (p : ℕ) → seq p ≡ p + 1 → (p < s.queue.enqueue_pos) × (content p ≡ s.sent p)

module _ {A : Type 0} where
  -- A writer's position has been claimed and its cell is free; a reader's has been claimed and its
  -- cell is full.
  pub writes_own :
      (k : ℕ) (s : Shared A) (t : Pc A) (p : ℕ)
      → Agrees k s t
      → writes t ≡ some p
      → (p < s.queue.enqueue_pos) × (seq k s p ≡ p)
  writes_own k s (enqueue_write x r) p h e = ground arith
  writes_own k s (enqueue_publish x r) p h e = ground arith
  writes_own k s t p h e = cc

  pub reads_own :
      (k : ℕ) (s : Shared A) (t : Pc A) (p : ℕ)
      → Agrees k s t
      → reads t ≡ some p
      → (p < s.queue.dequeue_pos) × (seq k s p ≡ p + 1)
  reads_own k s (dequeue_read r) p h e = ground arith
  reads_own k s (dequeue_release r x) p h e = ground arith
  reads_own k s t p h e = cc

pub record Inv {A : Type 0} (k n : ℕ) (s : System A) : Type 0 where
  pub cells : Cells k s.shared n
  pub agrees : (i : ℕ) → Agrees k s.shared (s.pc i)
  pub delivered : Delivered k s.shared s.shared.received
  pub once : Once s.shared.received
  pub one_writer : (i j p : ℕ) → writes (s.pc i) ≡ some p → writes (s.pc j) ≡ some p → i ≡ j
  pub one_reader : (i j p : ℕ) → reads (s.pc i) ≡ some p → reads (s.pc j) ≡ some p → i ≡ j
