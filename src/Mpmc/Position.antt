-- ===== src/Mpmc/Position.antt =====
-- What `enqueue` and `dequeue` do to the position of `enqueue`.
use nomad_tasks.Prelude.{
  ◌+◌, ◌≤◌, ◌≡◌, Bool, Option, some, is_zero, is_neg, ==-refl, Bool-cases, inl, inr, arith,
}
use nomad_tasks.Mpmc.{Mpmc, enqueue, enqueue_dif, enqueue_loop, dequeue, dequeue_dif, dequeue_loop}

module _ {ℓ} {A : Type ℓ} where
  pub dequeue-enqueue_pos :
      (q q' : Mpmc A) (r : Option A) → dequeue q ≡ some (r, q') → q'.enqueue_pos ≡ q.enqueue_pos
  unfolding dequeue dequeue_loop
  dequeue-enqueue_pos q q' r e = elim (Bool-cases (is_zero (dequeue_dif q q.dequeue_pos))) [
    | inl a ↦ let h = rw (a, ==-refl q.dequeue_pos) at e in ground arith
    | inr a ↦ elim (Bool-cases (is_neg (dequeue_dif q q.dequeue_pos))) [
      | inl b ↦ let h = rw (a, b) at e in ground arith
      | inr b ↦ let h = rw (a, b) at e in absurd (ground arith)
    ]
  ]

  pub enqueue-enqueue_pos :
      (q q' : Mpmc A) (x : A) (b : Bool)
      → enqueue x q ≡ some (b, q')
      → q'.enqueue_pos ≤ q.enqueue_pos + 1
  unfolding enqueue enqueue_loop
  enqueue-enqueue_pos q q' x b e = elim (Bool-cases (is_zero (enqueue_dif q q.enqueue_pos))) [
    | inl a ↦ let h = rw (a, ==-refl q.enqueue_pos) at e in ground arith
    | inr a ↦ elim (Bool-cases (is_neg (enqueue_dif q q.enqueue_pos))) [
      | inl c ↦ let h = rw (a, c) at e in ground arith
      | inr c ↦ let h = rw (a, c) at e in absurd (ground arith)
    ]
  ]
