-- ===== src/Mpmc/Concurrent/Reach.antt =====
-- The invariant along a whole schedule, from a fresh queue.
use nomad_tasks.Prelude.{
  ℕ, suc, ◌+◌, ◌^◌, ◌≤◌, ◌<◌, ◌≡◌, ◌≢◌, inl, inr, some, arith, ◌==◌, Bool-cases, update, pow_pos,
  List, [], ◌∷◌, length,
}
use native.Mathlib.Nat.{mod-le, mod-lt}
use nomad_tasks.Mpmc.{Mpmc, create}
use nomad_tasks.Mpmc.Create.{Fresh, create-Fresh}
use nomad_tasks.Mpmc.Concurrent.{Pc, Shared, System, Turn, turn, step, run, start}
use nomad_tasks.Mpmc.Concurrent.Invariant.{writes, reads, Agrees, writes_own, reads_own, Inv}
use nomad_tasks.Mpmc.Concurrent.Steps.{Kept, Apart, turn-Kept}

module _ {A : Type 0} (k n : ℕ) (s : System A) (v : Inv k n s) (i : ℕ) (r : Shared A × Pc A)
    (kept : Kept k n s.shared (s.pc i) r) where
  apart : (j : ℕ) → i ≢ j → Apart (s.pc i) (s.pc j)
  apart j ne = (λ p e f. ne (v.one_writer i j p e f), λ p e f. ne (v.one_reader i j p e f))

  new-Agrees : (j : ℕ) → Agrees k r.0 (update s.pc i r.1 j)
  new-Agrees j = elim (Bool-cases (i == j)) [
    | inl e ↦ rw e kept.own
    | inr e ↦ rw e (kept.others (s.pc j) (apart j (ground arith)) (v.agrees j))
  ]

  -- Nobody else writes at a position that the stepping thread writes at.
  writer_alone : (j p : ℕ) → i ≢ j → writes r.1 ≡ some p → writes (s.pc j) ≡ some p → ⊥
  writer_alone j p ne e f = elim (kept.writer p e) [
    | inl old ↦ ne (v.one_writer i j p old f)
    | inr new ↦ omega (arith, writes_own k s.shared (s.pc j) p (v.agrees j) f)
  ]

  reader_alone : (j p : ℕ) → i ≢ j → reads r.1 ≡ some p → reads (s.pc j) ≡ some p → ⊥
  reader_alone j p ne e f = elim (kept.reader p e) [
    | inl old ↦ ne (v.one_reader i j p old f)
    | inr new ↦ omega (arith, reads_own k s.shared (s.pc j) p (v.agrees j) f)
  ]

  update-Inv : Inv k (n + 1) (record { shared = r.0; pc = update s.pc i r.1 })
  update-Inv = record {
    cells = kept.cells;
    agrees = new-Agrees;
    delivered = kept.delivered v.delivered;
    once = kept.once v.delivered v.once;
    one_writer = λ a b p. ground (arith, v.one_writer a b p, writer_alone a p, writer_alone b p);
    one_reader = λ a b p. ground (arith, v.one_reader a b p, reader_alone a p, reader_alone b p);
  }

module _ {A : Type 0} (k : ℕ) where
  -- A step of any thread keeps the invariant, as long as no position can wrap.
  pub step-Inv :
      (n : ℕ) (e : ℕ × Turn A) (s : System A)
      → n + 2 ^ k < 2 ^ 63
      → Inv k n s
      → Inv k (n + 1) (step e s)
  unfolding step
  step-Inv n (i, t) s small v =
      update-Inv k n s v i (turn t s.shared (s.pc i))
        (turn-Kept k n s.shared v.cells small t (s.pc i) (v.agrees i))

  pub run-Inv :
      (n : ℕ) (es : List (ℕ × Turn A)) (s : System A)
      → n + length es + 2 ^ k < 2 ^ 63
      → Inv k n s
      → Inv k (n + length es) (run es s)
  unfolding run
  run-Inv n [] s small v = let e : n + 0 ≡ n = omega arith in rw e v
  run-Inv n (e ∷ es) s small v =
      let h : n + suc (length es) ≡ n + 1 + length es = omega arith in
      rw h (run-Inv (n + 1) es (step e s) (omega arith) (step-Inv n e s (omega arith) v))

  -- A queue that the constructor has made, before any call.
  pub start-Inv :
      (blank : A) (q : Mpmc A) → 1 ≤ k → create blank (2 ^ k) ≡ some q → Inv k 0 (start q blank)
  start-Inv blank q several made = record {
    cells = record {
      several = several;
      mask = fresh.mask;
      steps = omega (arith, fresh.enqueue_zero);
      order = omega (arith, fresh.enqueue_zero, fresh.dequeue_zero);
      room = omega (arith, fresh.enqueue_zero);
      ahead = λ p. omega (arith, fresh.numbered p, mod-lt p (pow_pos k));
      free_cell = λ p h. omega (arith, fresh.numbered p, mod-lt p (pow_pos k));
      full_cell = λ p h. absurd (omega (arith, fresh.numbered p, mod-le p (2 ^ k)));
    };
    agrees = λ i. tt;
    delivered = tt;
    once = tt;
    one_writer = λ i j p e f. cc;
    one_reader = λ i j p e f. cc;
  }
    where
      fresh : Fresh k q
      fresh = create-Fresh blank k q made
