-- ===== src/Mpmc/Concurrent/Progress.antt =====
-- No item and no cell is lost: a claimed position that is not published has a writer, and a cell
-- that was taken out and not given back has a reader.
use nomad_tasks.Prelude.{
  ℕ, ◌+◌, ◌%◌, ◌^◌, ◌≤◌, ◌<◌, ◌≡◌, ◌⊎◌, inl, inr, Bool, true, not, ◌&&◌, some, arith, ◌==◌,
  Bool-cases, pow_pos, is_zero, is_neg,
}
use nomad_tasks.Mpmc.{index, enqueue_dif, dequeue_dif}
use nomad_tasks.Mpmc.Index.{two-le-pow, mod-suc-ne, index-eq-mod}
use nomad_tasks.Mpmc.Concurrent.{
  Pc, Shared, Turn, idle, enqueue_start, enqueue_test, enqueue_cas, enqueue_write, enqueue_publish,
  enqueue_done, dequeue_start, dequeue_test, dequeue_cas, dequeue_read, dequeue_release,
  dequeue_done, call_enqueue, call_dequeue, go, advance, turn, do_claim_enqueue, do_claim_dequeue,
  do_write, do_publish, do_release,
}
use nomad_tasks.Mpmc.Concurrent.Invariant.{writes, reads, seq, Agrees, Cells}

-- What one step from `s` and `t` to the memory and the place in `r` does about it.
pub record Progress {A : Type 0} (k : ℕ) (s : Shared A) (t : Pc A) (r : Shared A × Pc A)
    : Type 0 where
  pub later_enqueue : s.queue.enqueue_pos ≤ r.0.queue.enqueue_pos
  pub later_dequeue : s.queue.dequeue_pos ≤ r.0.queue.dequeue_pos
  pub grown : (p : ℕ) → seq k s p ≤ seq k r.0 p
  pub filled : (p : ℕ) → s.queue.dequeue_pos ≤ p → seq k s p ≡ p + 1 → seq k r.0 p ≡ p + 1
  pub vacant : (p : ℕ) → s.queue.enqueue_pos ≤ p → seq k s p ≡ p → seq k r.0 p ≡ p
  pub wrote :
      (p : ℕ)
      → p < r.0.queue.enqueue_pos
      → (writes r.1 ≡ some p)
        ⊎ ((p < s.queue.enqueue_pos)
            × (writes t ≡ some p → (writes r.1 ≡ some p) ⊎ (seq k r.0 p ≡ p + 1)))
  pub gave :
      (p : ℕ)
      → p < r.0.queue.dequeue_pos
      → (reads r.1 ≡ some p)
        ⊎ ((p < s.queue.dequeue_pos)
            × (reads t ≡ some p → (reads r.1 ≡ some p) ⊎ (seq k r.0 p ≡ p + 2 ^ k)))

module _ {A : Type 0} (k n : ℕ) (s : Shared A) (c : Cells k s n) (small : n + 2 ^ k < 2 ^ 63) where
  open c use {mask, steps, order}

  at : (p : ℕ) → index s.queue p ≡ p % 2 ^ k
  at = index-eq-mod s.queue k mask

  apart : (p : ℕ) → (p + 1) % 2 ^ k ≡ p % 2 ^ k → ⊥
  apart p = mod-suc-ne (2 ^ k) p (two-le-pow k c.several)

  -- A step that leaves memory alone, and the thread's claims too.
  rest :
      (t t' : Pc A)
      → ((p : ℕ) → writes t ≡ some p → writes t' ≡ some p)
      → ((p : ℕ) → reads t ≡ some p → reads t' ≡ some p)
      → Progress k s t (s, t')
  rest t t' w r = record {
    later_enqueue = omega arith;
    later_dequeue = omega arith;
    grown = λ p. omega arith;
    filled = λ p h e. e;
    vacant = λ p h e. e;
    wrote = λ p h. inr (h, λ e. inl (w p e));
    gave = λ p h. inr (h, λ e. inl (r p e));
  }

  claim_enqueue-Progress :
      (x : A) (p : ℕ)
      → s.queue.enqueue_pos ≡ p
      → Progress k s (enqueue_cas x p) (do_claim_enqueue s x p, enqueue_write x p)
  claim_enqueue-Progress x p e = record {
    later_enqueue = omega arith;
    later_dequeue = omega arith;
    grown = λ p. omega arith;
    filled = λ p h e. e;
    vacant = λ p h e. e;
    wrote = λ r h. ground arith;
    gave = λ r h. inr (h, λ e. cc);
  }

  claim_dequeue-Progress :
      (p : ℕ)
      → s.queue.dequeue_pos ≡ p
      → Progress k s (dequeue_cas p) (do_claim_dequeue s p, dequeue_read p)
  claim_dequeue-Progress p e = record {
    later_enqueue = omega arith;
    later_dequeue = omega arith;
    grown = λ p. omega arith;
    filled = λ p h e. e;
    vacant = λ p h e. e;
    wrote = λ r h. inr (h, λ e. cc);
    gave = λ r h. ground arith;
  }

  write-Progress :
      (x : A) (p : ℕ)
      → Agrees k s (enqueue_write x p)
      → Progress k s (enqueue_write x p) (do_write s x p, enqueue_publish x p)
  write-Progress x p own = record {
    later_enqueue = omega arith;
    later_dequeue = omega arith;
    grown = λ r. ground (arith, at p);
    filled = λ r h e. ground (arith, at p);
    vacant = λ r h e. ground (arith, at p);
    wrote = λ r h. inr (h, λ e. inl e);
    gave = λ r h. inr (h, λ e. cc);
  }

  publish-Progress :
      (x : A) (p : ℕ)
      → Agrees k s (enqueue_publish x p)
      → Progress k s (enqueue_publish x p) (do_publish s p, enqueue_done true)
  publish-Progress x p own = record {
    later_enqueue = omega arith;
    later_dequeue = omega arith;
    grown = λ r. ground (arith, at p);
    filled = λ r h e. ground (arith, at p, apart r);
    vacant = λ r h e. ground (arith, at p);
    wrote = λ r h. inr (h, λ e. inr (ground (arith, at p)));
    gave = λ r h. inr (h, λ e. cc);
  }

  release-Progress :
      (x : A) (p : ℕ)
      → Agrees k s (dequeue_release p x)
      → Progress k s (dequeue_release p x) (do_release s x p, dequeue_done (some x))
  release-Progress x p own = record {
    later_enqueue = omega arith;
    later_dequeue = omega arith;
    grown = λ r. ground (arith, at p);
    filled = λ r h e. ground (arith, at p);
    vacant = λ r h e. ground (arith, at p, apart p);
    wrote = λ r h. inr (h, λ e. cc);
    gave = λ r h. inr (h, λ e. inr (ground (arith, at p, pow_pos k)));
  }

  advance-Progress : (b : Bool) (t : Pc A) → Agrees k s t → Progress k s t (advance b s t)
  unfolding advance
  advance-Progress b idle h = rest _ _ (λ p. cc) (λ p. cc)
  advance-Progress b (enqueue_start x) h = rest _ _ (λ p. cc) (λ p. cc)
  advance-Progress b (enqueue_test x p) h = elim (Bool-cases (is_zero (enqueue_dif s.queue p))) [
    | inl e ↦ rw e (rest _ _ (λ p. cc) (λ p. cc))
    | inr e ↦ rw e (elim (Bool-cases (is_neg (enqueue_dif s.queue p))) [
      | inl f ↦ rw f (rest _ _ (λ p. cc) (λ p. cc))
      | inr f ↦ rw f (rest _ _ (λ p. cc) (λ p. cc))
    ])
  ]
  advance-Progress b (enqueue_cas x p) h = elim (Bool-cases ((s.queue.enqueue_pos == p) && not b)) [
    | inl e ↦ rw e (claim_enqueue-Progress x p (ground arith))
    | inr e ↦ rw e (rest _ _ (λ p. cc) (λ p. cc))
  ]
  advance-Progress b (enqueue_write x p) h = write-Progress x p h
  advance-Progress b (enqueue_publish x p) h = publish-Progress x p h
  advance-Progress b (enqueue_done r) h = rest _ _ (λ p. cc) (λ p. cc)
  advance-Progress b dequeue_start h = rest _ _ (λ p. cc) (λ p. cc)
  advance-Progress b (dequeue_test p) h = elim (Bool-cases (is_zero (dequeue_dif s.queue p))) [
    | inl e ↦ rw e (rest _ _ (λ p. cc) (λ p. cc))
    | inr e ↦ rw e (elim (Bool-cases (is_neg (dequeue_dif s.queue p))) [
      | inl f ↦ rw f (rest _ _ (λ p. cc) (λ p. cc))
      | inr f ↦ rw f (rest _ _ (λ p. cc) (λ p. cc))
    ])
  ]
  advance-Progress b (dequeue_cas p) h = elim (Bool-cases ((s.queue.dequeue_pos == p) && not b)) [
    | inl e ↦ rw e (claim_dequeue-Progress p (ground arith))
    | inr e ↦ rw e (rest _ _ (λ p. cc) (λ p. cc))
  ]
  advance-Progress b (dequeue_read p) h = rest _ _ (λ p. cc) (λ r e. e)
  advance-Progress b (dequeue_release p x) h = release-Progress x p h
  advance-Progress b (dequeue_done r) h = rest _ _ (λ p. cc) (λ p. cc)

  pub turn-Progress : (a : Turn A) (t : Pc A) → Agrees k s t → Progress k s t (turn a s t)
  unfolding turn
  turn-Progress (call_enqueue x) idle h = rest _ _ (λ p. cc) (λ p. cc)
  turn-Progress (call_enqueue x) t h = rest _ _ (λ p e. e) (λ p e. e)
  turn-Progress call_dequeue idle h = rest _ _ (λ p. cc) (λ p. cc)
  turn-Progress call_dequeue t h = rest _ _ (λ p e. e) (λ p e. e)
  turn-Progress (go b) t h = advance-Progress b t h
