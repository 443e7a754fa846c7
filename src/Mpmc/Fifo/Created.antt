-- ===== src/Mpmc/Fifo/Created.antt =====
-- The queue that the constructor makes (mpmc_queue.h), as a bounded FIFO.
use native.Mathlib.Nat.{mod-eq_of_lt}
use nomad_tasks.Prelude.{ℕ, ◌^◌, ◌≤◌, ◌<◌, ◌≡◌, refl, some, [], arith}
use nomad_tasks.Mpmc.{Mpmc, create}
use nomad_tasks.Mpmc.Create.{create-Fresh}
use nomad_tasks.Mpmc.Fifo.{Valid, contents}

module _ {A : Type 0} where
  -- The constructor leaves a queue at rest, with no items.
  pub create_refines :
      (blank : A) (k : ℕ) (q : Mpmc A)
      → 1 ≤ k
      → create blank (2 ^ k) ≡ some q
      → Valid k q × (contents k q ≡ [])
  create_refines blank k q several made =
      let new = create-Fresh blank k q made in
      (
        record {
          several = several;
          mask = new.mask;
          order = ground arith;
          room = ground (arith, new);
          filled = λ p ge lt. absurd (ground (arith, new));
          vacant = λ p ge lt.
              let low : p < 2 ^ k = ground (arith, new) in
              ground (arith, new.numbered p, mod-eq_of_lt low);
        },
        rw (new.enqueue_zero, new.dequeue_zero) refl,
      )
