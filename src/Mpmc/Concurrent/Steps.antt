-- ===== src/Mpmc/Concurrent/Steps.antt =====
-- One step of one thread keeps the invariant.
use nomad_tasks.Prelude.{
  ℕ, ◌+◌, ◌%◌, ◌^◌, ◌≤◌, ◌<◌, ◌≡◌, ◌≢◌, refl, ◌⊎◌, inl, inr, Bool, not, ◌&&◌, some, arith, ◌==◌,
  Bool-cases, pow_pos, ap, ap₂, sym, ◌∙◌, ==→eq, to_intptr, ◌-ℤ◌, is_zero, is_neg, ltb, dif_sign,
}
use nomad_tasks.Mpmc.{enqueue_dif, dequeue_dif, size_mod, sequence_at, read_data}
use nomad_tasks.Mpmc.Index.{index-eq-mod}
use nomad_tasks.Mpmc.Concurrent.{
  Pc, Shared, Turn, idle, enqueue_start, enqueue_test, enqueue_cas, enqueue_write, enqueue_publish,
  enqueue_done, dequeue_start, dequeue_test, dequeue_cas, dequeue_read, dequeue_release,
  dequeue_done, call_enqueue, call_dequeue, go, advance, turn,
}
use nomad_tasks.Mpmc.Concurrent.Invariant.{writes, reads, seq, Agrees, Delivered, Cells, Once}
use nomad_tasks.Mpmc.Concurrent.Effects.{
  publish-Cells, publish-Agrees, publish-Delivered, write-Cells, write-Agrees, write-Agrees_self,
  write-Delivered, release-Cells, release-Agrees, release-Delivered_self, release-Once,
  claim_enqueue-Cells, claim_enqueue-Agrees, claim_enqueue-Agrees_self, claim_enqueue-Delivered,
  claim_dequeue-Cells, claim_dequeue-Agrees, claim_dequeue-Agrees_self, claim_dequeue-Delivered,
}

module _ {A : Type 0} where
  -- Two threads that own no cell in the same way.
  abbrev pub Apart : Pc A → Pc A → Type 0
  Apart t u =
      ((p : ℕ) → writes t ≡ some p → writes u ≢ some p)
      × ((p : ℕ) → reads t ≡ some p → reads u ≢ some p)

  -- What a step from `s` and `t` to the memory and the place in `r` keeps.
  pub record Kept (k n : ℕ) (s : Shared A) (t : Pc A) (r : Shared A × Pc A) : Type 0 where
    pub cells : Cells k r.0 (n + 1)
    pub own : Agrees k r.0 r.1
    pub others : (u : Pc A) → Apart t u → Agrees k s u → Agrees k r.0 u
    pub delivered : Delivered k s s.received → Delivered k r.0 r.0.received
    pub once : Delivered k s s.received → Once s.received → Once r.0.received
    pub writer : (p : ℕ) → writes r.1 ≡ some p → (writes t ≡ some p) ⊎ (s.queue.enqueue_pos ≤ p)
    pub reader : (p : ℕ) → reads r.1 ≡ some p → (reads t ≡ some p) ⊎ (s.queue.dequeue_pos ≤ p)

module _ {A : Type 0} (k n : ℕ) (s : Shared A) (c : Cells k s n) (small : n + 2 ^ k < 2 ^ 63) where
  open c use {mask, steps, order, room, ahead}

  at : (p : ℕ) → sequence_at s.queue p ≡ seq k s p
  at p = ap (λ i. (s.queue.buffer i).sequence) (index-eq-mod s.queue k mask p)

  -- No position has wrapped yet, so the signed difference compares as the numbers do.
  pub enqueue_dif_order :
      (p : ℕ)
      → p ≤ s.queue.enqueue_pos
      → (is_zero (enqueue_dif s.queue p) ≡ (seq k s p == p))
        × (is_neg (enqueue_dif s.queue p) ≡ ltb (seq k s p) p)
  enqueue_dif_order p h =
      let signs = dif_sign (seq k s p) p (omega (arith, ahead p)) (omega arith) in
      (
        ap (λ v. is_zero (to_intptr v -ℤ to_intptr p)) (at p) ∙ signs.0,
        ap (λ v. is_neg (to_intptr v -ℤ to_intptr p)) (at p) ∙ signs.1,
      )

  pub dequeue_dif_order :
      (p : ℕ)
      → p ≤ s.queue.dequeue_pos
      → (is_zero (dequeue_dif s.queue p) ≡ (seq k s p == p + 1))
        × (is_neg (dequeue_dif s.queue p) ≡ ltb (seq k s p) (p + 1))
  dequeue_dif_order p h =
      let e : (p + 1) % size_mod ≡ p + 1 = omega arith in
      let signs =
        dif_sign (seq k s p) (p + 1) (omega (arith, ahead p)) (omega (arith, pow_pos k)) in
      (
        ap₂ (λ v w. is_zero (to_intptr v -ℤ to_intptr w)) (at p) e ∙ signs.0,
        ap₂ (λ v w. is_neg (to_intptr v -ℤ to_intptr w)) (at p) e ∙ signs.1,
      )

  later : Cells k s (n + 1)
  later = record {
    several = c.several;
    mask = mask;
    steps = omega arith;
    order = order;
    room = room;
    ahead = ahead;
    free_cell = c.free_cell;
    full_cell = c.full_cell;
  }

  -- A step that changes no memory and claims nothing.
  quiet :
      (t t' : Pc A)
      → ((p : ℕ) → writes t' ≢ some p)
      → ((p : ℕ) → reads t' ≢ some p)
      → Agrees k s t'
      → Kept k n s t (s, t')
  quiet t t' nw nr h = record {
    cells = later;
    own = h;
    others = λ u a g. g;
    delivered = λ d. d;
    once = λ d o. o;
    writer = λ p e. absurd (nw p e);
    reader = λ p e. absurd (nr p e);
  }

  enqueue_test-Kept :
      (b : Bool) (x : A) (p : ℕ)
      → Agrees k s (enqueue_test x p)
      → Kept k n s (enqueue_test x p) (advance b s (enqueue_test x p))
  unfolding advance
  enqueue_test-Kept b x p h = elim (Bool-cases (is_zero (enqueue_dif s.queue p))) [
    | inl e ↦
        let seen : seq k s p ≡ p = ==→eq _ _ (sym (enqueue_dif_order p h.0).0 ∙ e) in
        rw e (quiet _ _ (λ p. cc) (λ p. cc) (h.0, λ _. seen, tt))
    | inr e ↦ rw e (elim (Bool-cases (is_neg (enqueue_dif s.queue p))) [
      | inl f ↦ rw f (quiet _ _ (λ p. cc) (λ p. cc) tt)
      | inr f ↦ rw f (quiet _ _ (λ p. cc) (λ p. cc) tt)
    ])
  ]

  dequeue_test-Kept :
      (b : Bool) (p : ℕ)
      → Agrees k s (dequeue_test p)
      → Kept k n s (dequeue_test p) (advance b s (dequeue_test p))
  unfolding advance
  dequeue_test-Kept b p h = elim (Bool-cases (is_zero (dequeue_dif s.queue p))) [
    | inl e ↦
        let seen : seq k s p ≡ p + 1 = ==→eq _ _ (sym (dequeue_dif_order p h.0).0 ∙ e) in
        rw e (quiet _ _ (λ p. cc) (λ p. cc) (h.0, λ _. seen, tt))
    | inr e ↦ rw e (elim (Bool-cases (is_neg (dequeue_dif s.queue p))) [
      | inl f ↦ rw f (quiet _ _ (λ p. cc) (λ p. cc) tt)
      | inr f ↦ rw f (quiet _ _ (λ p. cc) (λ p. cc) tt)
    ])
  ]

  enqueue_cas-Kept :
      (b : Bool) (x : A) (p : ℕ)
      → Agrees k s (enqueue_cas x p)
      → Kept k n s (enqueue_cas x p) (advance b s (enqueue_cas x p))
  unfolding advance
  enqueue_cas-Kept b x p h = elim (Bool-cases ((s.queue.enqueue_pos == p) && not b)) [
    | inl e ↦
        let same : s.queue.enqueue_pos ≡ p = ground arith in
        rw e (record {
          cells = claim_enqueue-Cells k n s c small x p same h;
          own = claim_enqueue-Agrees_self k n s c small x p same h;
          others = λ u a g. claim_enqueue-Agrees k n s c small x p u same g;
          delivered = claim_enqueue-Delivered k n s c small x p _ same;
          once = λ d o. o;
          writer = λ r w. inr (ground arith);
          reader = λ r w. cc;
        })
    | inr e ↦ rw e (quiet _ _ (λ p. cc) (λ p. cc) (omega arith))
  ]

  dequeue_cas-Kept :
      (b : Bool) (p : ℕ)
      → Agrees k s (dequeue_cas p)
      → Kept k n s (dequeue_cas p) (advance b s (dequeue_cas p))
  unfolding advance
  dequeue_cas-Kept b p h = elim (Bool-cases ((s.queue.dequeue_pos == p) && not b)) [
    | inl e ↦
        let same : s.queue.dequeue_pos ≡ p = ground arith in
        rw e (record {
          cells = claim_dequeue-Cells k n s c small p same h;
          own = claim_dequeue-Agrees_self k n s c small p same h;
          others = λ u a g. claim_dequeue-Agrees k n s c small p u same g;
          delivered = claim_dequeue-Delivered k n s c small p _ same;
          once = λ d o. o;
          writer = λ r w. cc;
          reader = λ r w. inr (ground arith);
        })
    | inr e ↦ rw e (quiet _ _ (λ p. cc) (λ p. cc) (omega arith))
  ]

  -- The thread that reads its own cell finds what was sent at its position.
  read_content : (p : ℕ) → Agrees k s (dequeue_read p) → s.sent p ≡ read_data s.queue p
  read_content p h = ground (arith, index-eq-mod s.queue k mask p, c.full_cell p)

  advance-Kept : (b : Bool) (t : Pc A) → Agrees k s t → Kept k n s t (advance b s t)
  unfolding advance
  advance-Kept b idle h = quiet _ _ (λ p. cc) (λ p. cc) tt
  advance-Kept b (enqueue_start x) h = quiet _ _ (λ p. cc) (λ p. cc) (omega arith)
  advance-Kept b (enqueue_test x p) h = enqueue_test-Kept b x p h
  advance-Kept b (enqueue_cas x p) h = enqueue_cas-Kept b x p h
  advance-Kept b (enqueue_write x p) h = record {
    cells = write-Cells k n s c small x p h;
    own = write-Agrees_self k n s c small x p h;
    others = λ u a g. write-Agrees k n s c small x p u h (a.0 p refl) g;
    delivered = write-Delivered k n s c small x p _;
    once = λ d o. o;
    writer = λ r w. inl w;
    reader = λ r w. cc;
  }
  advance-Kept b (enqueue_publish x p) h = record {
    cells = publish-Cells k n s c small x p h;
    own = tt;
    others = λ u a g. publish-Agrees k n s c small x p u h (a.0 p refl) g;
    delivered = publish-Delivered k n s c small x p _ h;
    once = λ d o. o;
    writer = λ r w. cc;
    reader = λ r w. cc;
  }
  advance-Kept b (enqueue_done r) h = quiet _ _ (λ p. cc) (λ p. cc) tt
  advance-Kept b dequeue_start h = quiet _ _ (λ p. cc) (λ p. cc) (omega arith)
  advance-Kept b (dequeue_test p) h = dequeue_test-Kept b p h
  advance-Kept b (dequeue_cas p) h = dequeue_cas-Kept b p h
  advance-Kept b (dequeue_read p) h = record {
    cells = later;
    own = (h.0, h.1, read_content p h);
    others = λ u a g. g;
    delivered = λ d. d;
    once = λ d o. o;
    writer = λ r w. cc;
    reader = λ r w. inl w;
  }
  advance-Kept b (dequeue_release p x) h = record {
    cells = release-Cells k n s c small x p h;
    own = tt;
    others = λ u a g. release-Agrees k n s c small x p u h (a.1 p refl) g;
    delivered = release-Delivered_self k n s c small x p h;
    once = release-Once k n s c small x p h;
    writer = λ r w. cc;
    reader = λ r w. cc;
  }
  advance-Kept b (dequeue_done r) h = quiet _ _ (λ p. cc) (λ p. cc) tt

  -- A turn that does not fit the thread's place changes nothing.
  stay : (t : Pc A) → Agrees k s t → Kept k n s t (s, t)
  stay t h = record {
    cells = later;
    own = h;
    others = λ u a g. g;
    delivered = λ d. d;
    once = λ d o. o;
    writer = λ p e. inl e;
    reader = λ p e. inl e;
  }

  pub turn-Kept : (a : Turn A) (t : Pc A) → Agrees k s t → Kept k n s t (turn a s t)
  unfolding turn
  turn-Kept (call_enqueue x) idle h = quiet _ _ (λ p. cc) (λ p. cc) tt
  turn-Kept (call_enqueue x) t h = stay t h
  turn-Kept call_dequeue idle h = quiet _ _ (λ p. cc) (λ p. cc) tt
  turn-Kept call_dequeue t h = stay t h
  turn-Kept (go b) t h = advance-Kept b t h
