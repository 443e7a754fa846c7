-- ===== src/Mpmc.antt =====
-- code/fiber/include/fiber/detail/mpmc_queue.h: the bounded queue of the job system.
-- The loops of `enqueue` and `dequeue` are cut into their accesses to shared memory, which the
-- uninterrupted runs below and the interleavings of Mpmc/Concurrent.antt both use.
pub mod Index
pub mod Fifo
pub mod Create
pub mod Position
pub mod Concurrent
use nomad_tasks.Prelude.{
  ℕ, zero, suc, ◌+◌, ◌-◌, ◌%◌, ◌^◌, bit_and, Bool, true, false, ◌&&◌, Option, none, some, leb, ◌==◌,
  if◌then◌else◌, update, ℤ, to_intptr, ◌-ℤ◌, is_zero, is_neg,
}

-- `size_t` and `uint64_t` wrap at this bound.
abbrev pub size_mod : ℕ
size_mod = 2 ^ 64

-- `cell_t`
pub record Cell {ℓ} (A : Type ℓ) : Type ℓ where
  pub sequence : ℕ
  pub content : A

-- `buffer_` has `buffer_mask + 1` cells; Mpmc/Index.antt shows that no other cell is touched.
pub record Mpmc {ℓ} (A : Type ℓ) : Type ℓ where
  pub buffer : ℕ → Cell A
  pub buffer_mask : ℕ
  pub enqueue_pos : ℕ
  pub dequeue_pos : ℕ

module _ {ℓ} {A : Type ℓ} where
  -- `for (i = 0; i != buffer_size; i += 1) buffer_[i].sequence_.store(i)`, from `i` with `n` rounds
  -- left.
  unfoldable pub number_cells : ℕ → ℕ → (ℕ → Cell A) → ℕ → Cell A
  number_cells zero i b = b
  number_cells (suc n) i b = number_cells n (i + 1) (update b i (record (b i) { sequence = i }))

  abbrev pub fresh : A → ℕ → Mpmc A
  unfolding number_cells
  fresh blank buffer_size = record {
    buffer = number_cells buffer_size 0 (λ _. record { sequence = 0; content = blank });
    buffer_mask = buffer_size - 1;
    enqueue_pos = 0;
    dequeue_pos = 0;
  }

  -- The constructor, for a default-constructed `blank`; `none` is the failed assertion.
  unfoldable pub create : A → ℕ → Option (Mpmc A)
  unfolding number_cells
  create blank buffer_size =
      if leb 2 buffer_size && bit_and buffer_size (buffer_size - 1) == 0
      then some (fresh blank buffer_size)
      else none

  -- `pos & buffer_mask_`
  abbrev pub index : Mpmc A → ℕ → ℕ
  index q pos = bit_and pos q.buffer_mask

  -- `cell->sequence_.load()`
  abbrev pub sequence_at : Mpmc A → ℕ → ℕ
  sequence_at q pos = (q.buffer (index q pos)).sequence

  -- `dif` of `enqueue`, and of `dequeue`
  abbrev pub enqueue_dif : Mpmc A → ℕ → ℤ
  enqueue_dif q pos = to_intptr (sequence_at q pos) -ℤ to_intptr pos

  abbrev pub dequeue_dif : Mpmc A → ℕ → ℤ
  dequeue_dif q pos = to_intptr (sequence_at q pos) -ℤ to_intptr ((pos + 1) % size_mod)

  -- The effect of a successful `compare_exchange_weak(pos, pos + 1)`.
  abbrev pub claim_enqueue : Mpmc A → ℕ → Mpmc A
  claim_enqueue q pos = record q { enqueue_pos = (pos + 1) % size_mod }

  abbrev pub claim_dequeue : Mpmc A → ℕ → Mpmc A
  claim_dequeue q pos = record q { dequeue_pos = (pos + 1) % size_mod }

  -- `cell->data_ = data`
  abbrev pub write_data : Mpmc A → ℕ → A → Mpmc A
  write_data q pos x =
      let i = index q pos in
      record q { buffer = update q.buffer i (record (q.buffer i) { content = x }) }

  -- `cell->sequence_.store(seq)`
  abbrev pub store_sequence : Mpmc A → ℕ → ℕ → Mpmc A
  store_sequence q pos seq =
      let i = index q pos in
      record q { buffer = update q.buffer i (record (q.buffer i) { sequence = seq }) }

  -- `cell->sequence_.store(pos + 1)` and `cell->sequence_.store(pos + buffer_mask_ + 1)`
  abbrev pub publish : Mpmc A → ℕ → Mpmc A
  publish q pos = store_sequence q pos ((pos + 1) % size_mod)

  abbrev pub release : Mpmc A → ℕ → Mpmc A
  release q pos = store_sequence q pos ((pos + q.buffer_mask + 1) % size_mod)

  -- `data = cell->data_`
  abbrev pub read_data : Mpmc A → ℕ → A
  read_data q pos = (q.buffer (index q pos)).content

  -- `enqueue` with no other thread at work, from the head of its loop with `pos` loaded; `none`
  -- means that the fuel ran out.
  pub enqueue_loop : ℕ → A → ℕ → Mpmc A → Option (Bool × Mpmc A)
  enqueue_loop zero x pos q = none
  enqueue_loop (suc fuel) x pos q =
      let again = enqueue_loop fuel x q.enqueue_pos q in
      if is_zero (enqueue_dif q pos)
      then (if q.enqueue_pos == pos
          then some (true, publish (write_data (claim_enqueue q pos) pos x) pos)
          else again)
      else if is_neg (enqueue_dif q pos)
      then some (false, q)
      else again

  pub dequeue_loop : ℕ → ℕ → Mpmc A → Option (Option A × Mpmc A)
  dequeue_loop zero pos q = none
  dequeue_loop (suc fuel) pos q =
      let again = dequeue_loop fuel q.dequeue_pos q in
      if is_zero (dequeue_dif q pos)
      then (if q.dequeue_pos == pos
          then some (some (read_data (claim_dequeue q pos) pos), release (claim_dequeue q pos) pos)
          else again)
      else if is_neg (dequeue_dif q pos)
      then some (none, q)
      else again

  -- One round is enough where no other thread interferes, as Mpmc/Fifo.antt shows.
  unfoldable pub enqueue : A → Mpmc A → Option (Bool × Mpmc A)
  unfolding enqueue_loop to_intptr ◌-ℤ◌
  enqueue x q = enqueue_loop 1 x q.enqueue_pos q

  unfoldable pub dequeue : Mpmc A → Option (Option A × Mpmc A)
  unfolding dequeue_loop to_intptr ◌-ℤ◌
  dequeue q = dequeue_loop 1 q.dequeue_pos q
