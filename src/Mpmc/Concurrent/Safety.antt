-- ===== src/Mpmc/Concurrent/Safety.antt =====
-- What holds after any schedule of any number of threads on a fresh queue (mpmc_queue.h).
use nomad_tasks.Prelude.{
  ℕ, zero, suc, ◌+◌, ◌-◌, ◌%◌, ◌^◌, ◌≤◌, ◌<◌, ◌≡◌, refl, ◌⊎◌, inl, inr, Bool, false, Option, some,
  none, arith, dec_lt, List, [], ◌∷◌, length, ap, ap₂, sym, ◌∙◌,
}
use nomad_tasks.Mpmc.{Mpmc, create, index}
use nomad_tasks.Mpmc.Index.{two-le-pow, mod-suc-ne, index-eq-mod}
use nomad_tasks.Mpmc.Fifo.{Valid, window, contents}
use nomad_tasks.Mpmc.Concurrent.{
  Pc, Shared, System, Turn, idle, enqueue_test, enqueue_write, enqueue_publish, enqueue_done,
  dequeue_test, dequeue_read, dequeue_release, dequeue_done, advance, run, start,
}
use nomad_tasks.Mpmc.Concurrent.Invariant.{
  writes, reads, seq, writes_own, reads_own, Inv, Delivered, Once,
}
use nomad_tasks.Mpmc.Concurrent.Steps.{enqueue_dif_order, dequeue_dif_order}
use nomad_tasks.Mpmc.Concurrent.Reach.{run-Inv, start-Inv}
use nomad_tasks.Mpmc.Concurrent.Live.{Live, run-Live, start-Live}

module _ {A : Type 0} where
  -- The position whose cell a thread is between claiming and handing on.
  abbrev pub owns : Pc A → Option ℕ
  owns (enqueue_write x p) = some p
  owns (enqueue_publish x p) = some p
  owns (dequeue_read p) = some p
  owns (dequeue_release p x) = some p
  owns _ = none

  -- The items of positions `p` to `p + n`, in the order in which their enqueues claimed them.
  abbrev pub sent_from : (ℕ → A) → ℕ → ℕ → List A
  sent_from sent p zero = []
  sent_from sent p (suc n) = sent p ∷ sent_from sent (p + 1) n

  -- Each item taken out is the one sent at its position, which lies below `bound`.
  abbrev pub Taken : (ℕ → A) → ℕ → List (ℕ × A) → Type 0
  Taken sent bound [] = Unit {0}
  Taken sent bound ((p, x) ∷ r) = (sent p ≡ x) × (p < bound) × Taken sent bound r

  Delivered-Taken :
      (k : ℕ) (s : Shared A) (r : List (ℕ × A))
      → Delivered k s r
      → Taken s.sent s.queue.dequeue_pos r
  Delivered-Taken k s [] h = tt
  Delivered-Taken k s ((p, x) ∷ r) (lt, le, e, rest) = (e, lt, Delivered-Taken k s r rest)

  owns-cases : (t : Pc A) (p : ℕ) → owns t ≡ some p → (writes t ≡ some p) ⊎ (reads t ≡ some p)
  owns-cases (enqueue_write x r) p e = inl e
  owns-cases t p e = ground arith

-- After a schedule `es` on the queue `q` that the constructor made for `2 ^ k` cells. The bound
-- keeps the positions, which count the claims, below the wrap of the signed difference.
module _ {A : Type 0} (blank : A) (k : ℕ) (q : Mpmc A) (several : 1 ≤ k)
    (made : create blank (2 ^ k) ≡ some q) (es : List (ℕ × Turn A))
    (small : length es + 2 ^ k < 2 ^ 63) where
  abbrev end : System A
  end = run es (start q blank)

  end-Inv : Inv k (0 + length es) end
  end-Inv = run-Inv k 0 es (start q blank) (omega arith) (start-Inv k blank q several made)

  end-Live : Live k end
  end-Live =
      run-Live k 0 es (start q blank) (omega arith) (start-Inv k blank q several made)
        (start-Live k blank q made)

  same_cell :
      (a b : ℕ) → index end.shared.queue a ≡ index end.shared.queue b → a % 2 ^ k ≡ b % 2 ^ k
  same_cell a b e =
      let at = index-eq-mod end.shared.queue k end-Inv.cells.mask in sym (at a) ∙ e ∙ at b

  same_seq : (a b : ℕ) → a % 2 ^ k ≡ b % 2 ^ k → seq k end.shared a ≡ seq k end.shared b
  same_seq a b e = ap (λ i. (end.shared.queue.buffer i).sequence) e

  apart : (p : ℕ) → (p + 1) % 2 ^ k ≡ p % 2 ^ k → ⊥
  apart p = mod-suc-ne (2 ^ k) p (two-le-pow k several)

  writer_reader :
      (i j a b : ℕ)
      → writes (end.pc i) ≡ some a
      → reads (end.pc j) ≡ some b
      → a % 2 ^ k ≡ b % 2 ^ k
      → ⊥
  writer_reader i j a b wi rj e =
      let w = writes_own k end.shared (end.pc i) a (end-Inv.agrees i) wi in
      let r = reads_own k end.shared (end.pc j) b (end-Inv.agrees j) rj in
      let next : a ≡ b + 1 = omega (arith, same_seq a b e) in apart b (rw (← next) e)

  -- After a schedule within the bound, no two threads are between claiming a cell and handing it
  -- on, for the same cell.
  pub cell_exclusive :
      (i j a b : ℕ)
      → owns (end.pc i) ≡ some a
      → owns (end.pc j) ≡ some b
      → index end.shared.queue a ≡ index end.shared.queue b
      → i ≡ j
  cell_exclusive i j a b oi oj same =
      let e = same_cell a b same in
      elim (owns-cases (end.pc i) a oi) [
        | inl wi ↦ elim (owns-cases (end.pc j) b oj) [
          | inl wj ↦
              let x = writes_own k end.shared (end.pc i) a (end-Inv.agrees i) wi in
              let y = writes_own k end.shared (end.pc j) b (end-Inv.agrees j) wj in
              let ab : a ≡ b = omega (arith, same_seq a b e) in
              end-Inv.one_writer i j a wi (rw ab wj)
          | inr rj ↦ absurd (writer_reader i j a b wi rj e)
        ]
        | inr ri ↦ elim (owns-cases (end.pc j) b oj) [
          | inl wj ↦ absurd (writer_reader j i b a wj ri (sym e))
          | inr rj ↦
              let x = reads_own k end.shared (end.pc i) a (end-Inv.agrees i) ri in
              let y = reads_own k end.shared (end.pc j) b (end-Inv.agrees j) rj in
              let ab : a ≡ b = omega (arith, same_seq a b e) in
              end-Inv.one_reader i j a ri (rw ab rj)
        ]
      ]

  -- After a schedule within the bound, every item taken out is the item sent at its position, and
  -- no position was taken out twice.
  pub received_sent :
      Taken end.shared.sent end.shared.queue.dequeue_pos end.shared.received
      × Once end.shared.received
  received_sent = (Delivered-Taken k end.shared end.shared.received end-Inv.delivered, end-Inv.once)

  -- After a schedule within the bound, the dequeue position is at most the enqueue position, and
  -- this at most `2 ^ k` further.
  pub never_over_capacity :
      (end.shared.queue.dequeue_pos ≤ end.shared.queue.enqueue_pos)
      × (end.shared.queue.enqueue_pos ≤ end.shared.queue.dequeue_pos + 2 ^ k)
  never_over_capacity = (end-Inv.cells.order, end-Inv.cells.room)

  enqueue_seen :
      (b : Bool) (x : A) (p : ℕ)
      → p ≤ end.shared.queue.enqueue_pos
      → (advance b end.shared (enqueue_test x p)).1 ≡ enqueue_done false
      → seq k end.shared p < p
  unfolding advance
  enqueue_seen b x p h e =
      ground (arith, enqueue_dif_order k (0 + length es) end.shared end-Inv.cells (omega arith) p h)

  dequeue_seen :
      (b : Bool) (p : ℕ)
      → p ≤ end.shared.queue.dequeue_pos
      → (advance b end.shared (dequeue_test p)).1 ≡ dequeue_done none
      → seq k end.shared p < p + 1
  unfolding advance
  dequeue_seen b p h e =
      ground (arith, dequeue_dif_order k (0 + length es) end.shared end-Inv.cells (omega arith) p h)

  -- After a schedule within the bound, `enqueue` gives up only where `2 ^ k` items are in the
  -- queue, or a thread is still reading the cell that comes next.
  pub enqueue_full :
      (i : ℕ) (b : Bool) (x : A) (p : ℕ)
      → end.pc i ≡ enqueue_test x p
      → (advance b end.shared (enqueue_test x p)).1 ≡ enqueue_done false
      → (end.shared.queue.enqueue_pos ≡ end.shared.queue.dequeue_pos + 2 ^ k)
        ⊎ ((j r : ℕ) × (r + 2 ^ k ≡ end.shared.queue.enqueue_pos) × (reads (end.pc j) ≡ some r))
  enqueue_full i b x p at e =
      let own = rw at at (end-Inv.agrees i) in
      let low = enqueue_seen b x p own.0 e in
      elim (dec_lt p end.shared.queue.dequeue_pos) [
        | yes lt ↦ absurd (omega (arith, end-Live.passed p lt))
        | no ge ↦ elim (dec_lt p end.shared.queue.enqueue_pos) [
          | yes lt ↦ elim (end-Live.written p lt (omega arith)) [
            | inl full ↦ absurd (omega arith)
            | inr (j, w) ↦
                let held = writes_own k end.shared (end.pc j) p (end-Inv.agrees j) w in
                absurd (omega arith)
          ]
          | no last ↦ elim (dec_lt p (end.shared.queue.dequeue_pos + 2 ^ k)) [
            | no full ↦ inl (omega (arith, end-Inv.cells.room))
            | yes lt ↦ elim (end-Live.freed p (omega arith) lt) [
              | inl free ↦ absurd (omega arith)
              | inr (j, r, e', w) ↦ inr (j, r, omega arith, w)
            ]
          ]
        ]
      ]

  -- After a schedule within the bound, `dequeue` gives up only where no item is in the queue, or a
  -- thread is still writing the next.
  pub dequeue_empty :
      (i : ℕ) (b : Bool) (p : ℕ)
      → end.pc i ≡ dequeue_test p
      → (advance b end.shared (dequeue_test p)).1 ≡ dequeue_done none
      → (end.shared.queue.dequeue_pos ≡ end.shared.queue.enqueue_pos)
        ⊎ ((j : ℕ) × (writes (end.pc j) ≡ some end.shared.queue.dequeue_pos))
  dequeue_empty i b p at e =
      let own = rw at at (end-Inv.agrees i) in
      let low = dequeue_seen b p own.0 e in
      elim (dec_lt p end.shared.queue.dequeue_pos) [
        | yes lt ↦ absurd (omega (arith, end-Live.passed p lt))
        | no ge ↦ elim (dec_lt p end.shared.queue.enqueue_pos) [
          | no none_left ↦ inl (omega (arith, end-Inv.cells.order))
          | yes lt ↦ elim (end-Live.written p lt (omega arith)) [
            | inl full ↦ absurd (omega arith)
            | inr (j, w) ↦
                let here : p ≡ end.shared.queue.dequeue_pos = omega arith in inr (j, rw (← here) w)
          ]
        ]
      ]

  -- After a schedule within the bound, with no call under way, the queue is at rest, and holds the
  -- items sent and not yet claimed by a dequeue, in the order of the claims.
  pub quiescent_contents :
      ((i : ℕ) → end.pc i ≡ idle)
      → Valid k end.shared.queue
        × (contents k end.shared.queue
            ≡ sent_from end.shared.sent end.shared.queue.dequeue_pos
                (end.shared.queue.enqueue_pos - end.shared.queue.dequeue_pos))
  quiescent_contents quiet = (
    record {
      several = several;
      mask = end-Inv.cells.mask;
      order = end-Inv.cells.order;
      room = end-Inv.cells.room;
      filled = filled;
      vacant = λ p ge lt. elim (end-Live.freed p ge lt) [
        | inl e ↦ e
        | inr (j, r, _, w) ↦ absurd (no_reader j r w)
      ];
    },
    window_sent end.shared.queue.dequeue_pos
        (end.shared.queue.enqueue_pos - end.shared.queue.dequeue_pos) (omega arith)
        (omega (arith, end-Inv.cells.order)),
  )
    where
      no_writer : (j p : ℕ) → writes (end.pc j) ≡ some p → ⊥
      no_writer j p w = let w' = rw (quiet j) at w in cc

      no_reader : (j p : ℕ) → reads (end.pc j) ≡ some p → ⊥
      no_reader j p w = let w' = rw (quiet j) at w in cc

      filled :
          (p : ℕ)
          → end.shared.queue.dequeue_pos ≤ p
          → p < end.shared.queue.enqueue_pos
          → seq k end.shared p ≡ p + 1
      filled p ge lt = elim (end-Live.written p lt ge) [
        | inl e ↦ e
        | inr (j, w) ↦ absurd (no_writer j p w)
      ]

      window_sent :
          (p n : ℕ)
          → end.shared.queue.dequeue_pos ≤ p
          → p + n ≤ end.shared.queue.enqueue_pos
          → window k end.shared.queue p n ≡ sent_from end.shared.sent p n
      window_sent p zero ge le = refl
      window_sent p (suc n) ge le =
          ap₂ ◌∷◌ (end-Inv.cells.full_cell p (filled p ge (omega arith))).1
            (window_sent (p + 1) n (omega arith) (omega arith))
