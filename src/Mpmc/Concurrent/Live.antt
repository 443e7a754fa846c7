-- ===== src/Mpmc/Concurrent/Live.antt =====
-- No item and no cell is lost, along a whole schedule from a fresh queue.
use native.Mathlib.Nat.{mod-eq_of_lt}
use nomad_tasks.Prelude.{
  ℕ, ◌+◌, ◌-◌, ◌%◌, ◌^◌, ◌≤◌, ◌<◌, ◌≡◌, ◌⊎◌, inl, inr, some, arith, ◌==◌, Bool-cases, update,
  pow_pos, List, [], ◌∷◌, length, dec_lt, sym, ◌∙◌, ap,
}
use nomad_tasks.Mpmc.{Mpmc, create}
use nomad_tasks.Mpmc.Create.{Fresh, create-Fresh}
use nomad_tasks.Mpmc.Index.{mod-add_self}
use nomad_tasks.Mpmc.Concurrent.{Pc, Shared, System, Turn, turn, step, run, start}
use nomad_tasks.Mpmc.Concurrent.Invariant.{writes, reads, seq, Agrees, reads_own, Inv}
use nomad_tasks.Mpmc.Concurrent.Progress.{Progress, turn-Progress}
use nomad_tasks.Mpmc.Concurrent.Steps.{turn-Kept}
use nomad_tasks.Mpmc.Concurrent.Reach.{step-Inv}

-- What the positions that are not at rest wait for.
pub record Live {A : Type 0} (k : ℕ) (s : System A) : Type 0 where
  pub written :
      (p : ℕ)
      → p < s.shared.queue.enqueue_pos
      → s.shared.queue.dequeue_pos ≤ p
      → (seq k s.shared p ≡ p + 1) ⊎ ((i : ℕ) × (writes (s.pc i) ≡ some p))
  pub freed :
      (p : ℕ)
      → s.shared.queue.enqueue_pos ≤ p
      → p < s.shared.queue.dequeue_pos + 2 ^ k
      → (seq k s.shared p ≡ p) ⊎ ((i r : ℕ) × (r + 2 ^ k ≡ p) × (reads (s.pc i) ≡ some r))
  -- What has been claimed by a reader was published.
  pub passed : (p : ℕ) → p < s.shared.queue.dequeue_pos → p + 1 ≤ seq k s.shared p

module _ {A : Type 0} (k : ℕ) (s : System A) (v : Live k s) (i : ℕ) (r : Shared A × Pc A)
    (g : Progress k s.shared (s.pc i) r) where
  abbrev after : System A
  after = record { shared = r.0; pc = update s.pc i r.1 }

  new_written :
      (p : ℕ)
      → p < r.0.queue.enqueue_pos
      → r.0.queue.dequeue_pos ≤ p
      → (seq k r.0 p ≡ p + 1) ⊎ ((j : ℕ) × (writes (after.pc j) ≡ some p))
  new_written p lt ge = elim (g.wrote p lt) [
    | inl w ↦ inr (i, ground arith)
    | inr (old, keeps) ↦ elim (v.written p old (omega (arith, g.later_dequeue))) [
      | inl e ↦ inl (g.filled p (omega (arith, g.later_dequeue)) e)
      | inr (j, w) ↦ elim (Bool-cases (i == j)) [
        | inr ne ↦ inr (j, rw ne w)
        | inl same ↦
            let e : i ≡ j = ground arith in
            elim (keeps (rw e w)) [ inl w' ↦ inr (i, ground arith) | inr done ↦ inl done ]
      ]
    ]
  ]

  given : (q p : ℕ) → q + 2 ^ k ≡ p → seq k r.0 q ≡ q + 2 ^ k → seq k r.0 p ≡ p
  given q p e d =
      let h : p % 2 ^ k ≡ q % 2 ^ k =
        ap (λ t. t % 2 ^ k) (sym e) ∙ mod-add_self (2 ^ k) q (pow_pos k) in
      ap (λ t. (r.0.queue.buffer t).sequence) h ∙ d ∙ e

  new_freed :
      (p : ℕ)
      → r.0.queue.enqueue_pos ≤ p
      → p < r.0.queue.dequeue_pos + 2 ^ k
      → (seq k r.0 p ≡ p) ⊎ ((j q : ℕ) × (q + 2 ^ k ≡ p) × (reads (after.pc j) ≡ some q))
  new_freed p ge lt = elim (dec_lt p (s.shared.queue.dequeue_pos + 2 ^ k)) [
    | yes old ↦ elim (v.freed p (omega (arith, g.later_enqueue)) old) [
      | inl e ↦ inl (g.vacant p (omega (arith, g.later_enqueue)) e)
      | inr (j, q, qp, w) ↦ elim (Bool-cases (i == j)) [
        | inr ne ↦ inr (j, q, qp, rw ne w)
        | inl same ↦
            let e : i ≡ j = ground arith in
            elim (g.gave q (omega arith)) [
              | inl w' ↦ inr (i, q, qp, ground arith)
              | inr (below, keeps) ↦ elim (keeps (rw e w)) [
                | inl w' ↦ inr (i, q, qp, ground arith)
                | inr done ↦ inl (given q p qp done)
              ]
            ]
      ]
    ]
    | no fresh ↦ elim (g.gave (p - 2 ^ k) (omega arith)) [
      | inl w ↦ inr (i, p - 2 ^ k, omega arith, ground arith)
      | inr (below, keeps) ↦ absurd (omega arith)
    ]
  ]

  new_passed : Agrees k r.0 r.1 → (p : ℕ) → p < r.0.queue.dequeue_pos → p + 1 ≤ seq k r.0 p
  new_passed own p lt = elim (g.gave p lt) [
    | inl w ↦ omega (arith, reads_own k r.0 r.1 p own w)
    | inr (old, _) ↦ omega (arith, v.passed p old, g.grown p)
  ]

  update-Live : Agrees k r.0 r.1 → Live k after
  update-Live own = record { written = new_written; freed = new_freed; passed = new_passed own }

module _ {A : Type 0} (k : ℕ) where
  step-Live :
      (n : ℕ) (e : ℕ × Turn A) (s : System A)
      → n + 2 ^ k < 2 ^ 63
      → Inv k n s
      → Live k s
      → Live k (step e s)
  unfolding step
  step-Live n (i, t) s small v l =
      let agrees = v.agrees i in
      update-Live k s l i (turn t s.shared (s.pc i))
        (turn-Progress k n s.shared v.cells small t (s.pc i) agrees)
        (turn-Kept k n s.shared v.cells small t (s.pc i) agrees).own

  pub run-Live :
      (n : ℕ) (es : List (ℕ × Turn A)) (s : System A)
      → n + length es + 2 ^ k < 2 ^ 63
      → Inv k n s
      → Live k s
      → Live k (run es s)
  unfolding run
  run-Live n [] s small v l = l
  run-Live n (e ∷ es) s small v l =
      run-Live (n + 1) es (step e s) (omega arith) (step-Inv k n e s (omega arith) v)
        (step-Live n e s (omega arith) v l)

  pub start-Live : (blank : A) (q : Mpmc A) → create blank (2 ^ k) ≡ some q → Live k (start q blank)
  start-Live blank q made = record {
    written = λ p lt ge. absurd (omega (arith, fresh.enqueue_zero));
    passed = λ p lt. absurd (omega (arith, fresh.dequeue_zero));
    freed = λ p ge lt. inl (fresh.numbered p ∙ mod-eq_of_lt (omega (arith, fresh.dequeue_zero)));
  }
    where
      fresh : Fresh k q
      fresh = create-Fresh blank k q made
