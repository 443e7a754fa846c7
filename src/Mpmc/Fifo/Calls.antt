-- ===== src/Mpmc/Fifo/Calls.antt =====
-- What each call of `enqueue` and `dequeue` (mpmc_queue.h) does to a queue at rest.
use nomad_tasks.Prelude.{
  ℕ, ◌+◌, ◌%◌, ◌^◌, ◌<◌, ◌≡◌, ap, ap₂, ◌∙◌, true, false, none, some, arith, pow_pos, is_zero,
  is_neg, ==-refl, dif_sign, to_intptr, ◌-ℤ◌,
}
use nomad_tasks.Mpmc.{
  Mpmc, Cell, enqueue_dif, dequeue_dif, sequence_at, index, size_mod, enqueue, enqueue_loop,
  dequeue, dequeue_loop, publish, release, write_data, claim_enqueue, claim_dequeue, read_data,
}
use nomad_tasks.Mpmc.Index.{two-le-pow, mod-add_self, index-eq-mod}
use nomad_tasks.Mpmc.Fifo.{cell, Valid}

module _ {A : Type 0} (k : ℕ) (q : Mpmc A) (v : Valid k q)
    (small : q.enqueue_pos + 2 ^ k < 2 ^ 63) where
  open v use {several, mask, order, room, filled, vacant}

  pub at : (p : ℕ) → index q p ≡ p % 2 ^ k
  at = index-eq-mod q k mask

  pub cell_of_round : (p : ℕ) → cell k q (p + 2 ^ k) ≡ cell k q p
  cell_of_round p = ap q.buffer (mod-add_self (2 ^ k) p (pow_pos k))

  at_sequence : (p : ℕ) → sequence_at q p ≡ (cell k q p).sequence
  at_sequence p = ap (λ i. (q.buffer i).sequence) (at p)

  -- The difference that `enqueue` computes is zero, or negative where the queue is full.
  enqueue_dif_room :
      q.enqueue_pos < q.dequeue_pos + 2 ^ k → is_zero (enqueue_dif q q.enqueue_pos) ≡ true
  enqueue_dif_room h =
      ap (λ w. is_zero (to_intptr w -ℤ to_intptr q.enqueue_pos)) (at_sequence q.enqueue_pos ∙ seen)
      ∙ (dif_sign q.enqueue_pos q.enqueue_pos (omega arith) (omega arith)).0
      ∙ ==-refl q.enqueue_pos
    where
      seen : (cell k q q.enqueue_pos).sequence ≡ q.enqueue_pos
      seen = vacant q.enqueue_pos (omega arith) h

  enqueue_dif_full :
      q.enqueue_pos ≡ q.dequeue_pos + 2 ^ k
      → (is_zero (enqueue_dif q q.enqueue_pos) ≡ false)
        × (is_neg (enqueue_dif q q.enqueue_pos) ≡ true)
  enqueue_dif_full h =
      let d = q.dequeue_pos in
      let seen : sequence_at q q.enqueue_pos ≡ d + 1 =
        at_sequence q.enqueue_pos
        ∙ ap (λ p. (cell k q p).sequence) h
        ∙ ap (λ (c : Cell A). c.sequence) (cell_of_round d)
        ∙ filled d (omega arith) (omega (arith, pow_pos k)) in
      let signs =
        dif_sign (d + 1) q.enqueue_pos (omega (arith, two-le-pow k several)) (omega arith) in
      (
        ap (λ w. is_zero (to_intptr w -ℤ to_intptr q.enqueue_pos)) seen
            ∙ signs.0
            ∙ ground (arith, two-le-pow k several),
        ap (λ w. is_neg (to_intptr w -ℤ to_intptr q.enqueue_pos)) seen
            ∙ signs.1
            ∙ ground (arith, two-le-pow k several),
      )

  dequeue_word : (q.dequeue_pos + 1) % size_mod ≡ q.dequeue_pos + 1
  dequeue_word = omega (arith, pow_pos k)

  dequeue_dif_some : q.dequeue_pos < q.enqueue_pos → is_zero (dequeue_dif q q.dequeue_pos) ≡ true
  dequeue_dif_some h =
      ap₂ (λ v w. is_zero (to_intptr v -ℤ to_intptr w))
        (at_sequence q.dequeue_pos ∙ filled q.dequeue_pos (omega arith) h) dequeue_word
      ∙ (dif_sign (q.dequeue_pos + 1) (q.dequeue_pos + 1) (omega (arith, pow_pos k))
          (omega (arith, pow_pos k))).0
      ∙ ==-refl (q.dequeue_pos + 1)

  dequeue_dif_none :
      q.dequeue_pos ≡ q.enqueue_pos
      → (is_zero (dequeue_dif q q.dequeue_pos) ≡ false)
        × (is_neg (dequeue_dif q q.dequeue_pos) ≡ true)
  dequeue_dif_none h =
      let d = q.dequeue_pos in
      let seen : sequence_at q d ≡ d =
        at_sequence d ∙ vacant d (omega arith) (omega (arith, pow_pos k)) in
      let signs = dif_sign d (d + 1) (omega arith) (omega (arith, pow_pos k)) in
      (
        ap₂ (λ v w. is_zero (to_intptr v -ℤ to_intptr w)) seen dequeue_word
            ∙ signs.0
            ∙ ground arith,
        ap₂ (λ v w. is_neg (to_intptr v -ℤ to_intptr w)) seen dequeue_word ∙ signs.1 ∙ ground arith,
      )

  -- The two operations in closed form: one round, and no other cell touched.
  abbrev pub enqueued : A → Mpmc A
  enqueued x = publish (write_data (claim_enqueue q q.enqueue_pos) q.enqueue_pos x) q.enqueue_pos

  abbrev pub dequeued : Mpmc A
  dequeued = release (claim_dequeue q q.dequeue_pos) q.dequeue_pos

  pub enqueue-room :
      (x : A) → q.enqueue_pos < q.dequeue_pos + 2 ^ k → enqueue x q ≡ some (true, enqueued x)
  unfolding enqueue enqueue_loop
  enqueue-room x h = rw (enqueue_dif_room h, ==-refl q.enqueue_pos)

  pub enqueue-full : (x : A) → q.enqueue_pos ≡ q.dequeue_pos + 2 ^ k → enqueue x q ≡ some (false, q)
  unfolding enqueue enqueue_loop
  enqueue-full x h = let (z, n) = enqueue_dif_full h in rw (z, n)

  pub dequeue-some :
      q.dequeue_pos < q.enqueue_pos → dequeue q ≡ some (some (read_data q q.dequeue_pos), dequeued)
  unfolding dequeue dequeue_loop
  dequeue-some h = rw (dequeue_dif_some h, ==-refl q.dequeue_pos)

  pub dequeue-none : q.dequeue_pos ≡ q.enqueue_pos → dequeue q ≡ some (none, q)
  unfolding dequeue dequeue_loop
  dequeue-none h = let (z, n) = dequeue_dif_none h in rw (z, n)
