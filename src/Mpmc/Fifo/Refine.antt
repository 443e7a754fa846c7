-- ===== src/Mpmc/Fifo/Refine.antt =====
-- A queue at rest behaves as the bounded FIFO of its items.
use nomad_tasks.Prelude.{
  ℕ, zero, suc, ◌+◌, ◌-◌, ◌%◌, ◌^◌, ◌≤◌, ◌<◌, ◌≡◌, refl, sym, ap, ap₂, ◌∙◌, true, false, some,
  arith, ltb, pow_pos, [], ◌∷◌, ◌++◌, length, dec_lt,
}
use nomad_tasks.Mpmc.{Mpmc, size_mod, enqueue, dequeue, read_data}
use nomad_tasks.Mpmc.Index.{two-le-pow, mod-suc-ne, mod-add_self, mod-ne_of_lt}
use nomad_tasks.Mpmc.Fifo.{cell, window, contents, length-window, Valid, push, pop}
use nomad_tasks.Mpmc.Fifo.Calls.{
  at, enqueued, dequeued, enqueue-room, enqueue-full, dequeue-some, dequeue-none,
}

module _ {A : Type 0} (k : ℕ) (q : Mpmc A) (v : Valid k q)
    (small : q.enqueue_pos + 2 ^ k < 2 ^ 63) where
  open v use {several, mask, order, room, filled, vacant}

  apart : (p : ℕ) → (p + 1) % 2 ^ k ≡ p % 2 ^ k → ⊥
  apart p = mod-suc-ne (2 ^ k) p (two-le-pow k several)

  enqueued-Valid :
      (x : A) → q.enqueue_pos < q.dequeue_pos + 2 ^ k → Valid k (enqueued k q v small x)
  enqueued-Valid x h = record {
    several = several;
    mask = mask;
    order = omega arith;
    room = omega arith;
    filled = λ p ge lt.
        ground
          (arith, at k q v small q.enqueue_pos, filled p, mod-ne_of_lt (2 ^ k) p q.enqueue_pos);
    vacant = λ p ge lt.
        ground
          (arith, at k q v small q.enqueue_pos, vacant p, mod-ne_of_lt (2 ^ k) q.enqueue_pos p);
  }

  dequeued-Valid : q.dequeue_pos < q.enqueue_pos → Valid k (dequeued k q v small)
  dequeued-Valid h = record {
    several = several;
    mask = mask;
    order = omega arith;
    room = omega arith;
    filled = λ p ge lt.
        ground
          (arith, at k q v small q.dequeue_pos, filled p, mod-ne_of_lt (2 ^ k) q.dequeue_pos p);
    vacant = λ p ge lt. ground (
      arith,
      at k q v small q.dequeue_pos,
      vacant p,
      mod-ne_of_lt (2 ^ k) q.dequeue_pos p,
      mod-add_self (2 ^ k) q.dequeue_pos,
      pow_pos k,
    );
  }

  window-enqueued :
      (x : A) (p n : ℕ)
      → q.enqueue_pos < p + 2 ^ k
      → p + n ≤ q.enqueue_pos
      → window k (enqueued k q v small x) p n ≡ window k q p n
  window-enqueued x p zero l h = refl
  window-enqueued x p (suc n) l h =
      ap₂ ◌∷◌ (ground (arith, at k q v small q.enqueue_pos, mod-ne_of_lt (2 ^ k) p q.enqueue_pos))
        (window-enqueued x (p + 1) n (omega arith) (omega arith))

  content-enqueued : (x : A) → (cell k (enqueued k q v small x) q.enqueue_pos).content ≡ x
  content-enqueued x = ground (arith, at k q v small q.enqueue_pos)

  window-dequeued : (p n : ℕ) → window k (dequeued k q v small) p n ≡ window k q p n
  window-dequeued p zero = refl
  window-dequeued p (suc n) =
      ap₂ ◌∷◌ (ground (arith, at k q v small q.dequeue_pos)) (window-dequeued (p + 1) n)

module _ {A : Type 0} (k : ℕ) (q : Mpmc A) where
  -- A window of one more item ends in it.
  window-snoc :
      (p n e : ℕ) → p + n ≡ e → window k q p (suc n) ≡ window k q p n ++ ((cell k q e).content ∷ [])
  window-snoc p zero e h = let h' : p ≡ e = omega arith in ap (λ i. (cell k q i).content ∷ []) h'
  window-snoc p (suc n) e h =
      ap (λ r. (cell k q p).content ∷ r) (window-snoc (p + 1) n e (omega arith))

  length-contents : length (contents k q) ≡ q.enqueue_pos - q.dequeue_pos
  length-contents = length-window k q q.dequeue_pos (q.enqueue_pos - q.dequeue_pos)

module _ {A : Type 0} (k : ℕ) (q : Mpmc A) (v : Valid k q)
    (small : q.enqueue_pos + 2 ^ k < 2 ^ 63) where
  open v use {several, mask, order, room}

  contents-enqueued :
      (x : A)
      → q.enqueue_pos < q.dequeue_pos + 2 ^ k
      → contents k (enqueued k q v small x) ≡ contents k q ++ (x ∷ [])
  contents-enqueued x h =
      let q' = enqueued k q v small x in
      let n = q.enqueue_pos - q.dequeue_pos in
      let e : (q.enqueue_pos + 1) % size_mod - q.dequeue_pos ≡ suc n = omega arith in
      ap (window k q' q.dequeue_pos) e
      ∙ window-snoc k q' q.dequeue_pos n q.enqueue_pos (omega arith)
      ∙ ap₂ (λ l y. l ++ (y ∷ []))
          (window-enqueued k q v small x q.dequeue_pos n (omega arith) (omega arith))
          (content-enqueued k q v small x)

  contents-dequeued :
      q.dequeue_pos < q.enqueue_pos
      → contents k q ≡ read_data q q.dequeue_pos ∷ contents k (dequeued k q v small)
  contents-dequeued h =
      let d = q.dequeue_pos in
      let n : ℕ = q.enqueue_pos - (d + 1) % size_mod in
      let e : q.enqueue_pos - d ≡ suc n = omega arith in
      let w : (d + 1) % size_mod ≡ d + 1 = omega arith in
      ap (window k q d) e
      ∙ ap₂ ◌∷◌ (ap (λ i. (q.buffer i).content) (sym (at k q v small d))) (
          sym (window-dequeued k q v small (d + 1) n)
          ∙ ap (λ t. window k (dequeued k q v small) t n) (sym w))

  -- `enqueue` on a queue at rest, whose positions are below the wrap, comes to an end, says what
  -- `push` says, and leaves a queue at rest with the items that `push` leaves.
  pub enqueue_refines :
      (x : A)
      → let (r, xs) = push (2 ^ k) x (contents k q) in
        (q' : Mpmc A) × (enqueue x q ≡ some (r, q')) × Valid k q' × (contents k q' ≡ xs)
  unfolding push
  enqueue_refines x = elim (dec_lt q.enqueue_pos (q.dequeue_pos + 2 ^ k)) [
    | yes h ↦
        let e : ltb (length (contents k q)) (2 ^ k) ≡ true = ground (arith, length-contents k q) in
        rw e (
          enqueued k q v small x,
          enqueue-room k q v small x h,
          enqueued-Valid k q v small x h,
          contents-enqueued x h,
        )
    | no h ↦
        let e : ltb (length (contents k q)) (2 ^ k) ≡ false = ground (arith, length-contents k q) in
        rw e (q, enqueue-full k q v small x (omega arith), v, refl)
  ]

  -- `dequeue` on a queue at rest, whose positions are below the wrap, comes to an end, gives what
  -- `pop` gives, and leaves a queue at rest with the items that `pop` leaves.
  pub dequeue_refines :
      let (r, xs) = pop (contents k q) in
      (q' : Mpmc A) × (dequeue q ≡ some (r, q')) × Valid k q' × (contents k q' ≡ xs)
  unfolding pop
  dequeue_refines = elim (dec_lt q.dequeue_pos q.enqueue_pos) [
    | yes h ↦
        rw (contents-dequeued h)
          (dequeued k q v small, dequeue-some k q v small h, dequeued-Valid k q v small h, refl)
    | no h ↦
        let e : q.enqueue_pos - q.dequeue_pos ≡ 0 = omega arith in
        let c : contents k q ≡ [] = ap (window k q q.dequeue_pos) e in
        rw c (q, dequeue-none k q v small (omega arith), v, c)
  ]
