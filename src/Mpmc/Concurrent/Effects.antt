-- ===== src/Mpmc/Concurrent/Effects.antt =====
-- The five accesses that change shared memory keep what holds of the cells, of the other threads
-- and of the items taken out.
use nomad_tasks.Prelude.{ℕ, ◌+◌, ◌%◌, ◌^◌, ◌<◌, ◌≡◌, ◌≢◌, some, List, [], ◌∷◌, arith, pow_pos}
use nomad_tasks.Mpmc.{index}
use nomad_tasks.Mpmc.Index.{two-le-pow, mod-suc-ne, mod-add_self, index-eq-mod}
use nomad_tasks.Mpmc.Concurrent.{
  Pc, Shared, enqueue_cas, enqueue_write, enqueue_publish, dequeue_cas, dequeue_read,
  dequeue_release, do_claim_enqueue, do_write, do_publish, do_claim_dequeue, do_release,
}
use nomad_tasks.Mpmc.Concurrent.Invariant.{writes, reads, Agrees, Delivered, Cells, Once, Absent}

module _ {A : Type 0} (k n : ℕ) (s : Shared A) (c : Cells k s n) (small : n + 2 ^ k < 2 ^ 63) where
  open c use {several, mask, steps, order, room, ahead, free_cell, full_cell}

  at : (p : ℕ) → index s.queue p ≡ p % 2 ^ k
  at = index-eq-mod s.queue k mask

  apart : (p : ℕ) → (p + 1) % 2 ^ k ≡ p % 2 ^ k → ⊥
  apart p = mod-suc-ne (2 ^ k) p (two-le-pow k several)

  round : (p : ℕ) → (p + 2 ^ k) % 2 ^ k ≡ p % 2 ^ k
  round p = mod-add_self (2 ^ k) p (pow_pos k)

  pub publish-Cells :
      (x : A) (p : ℕ) → Agrees k s (enqueue_publish x p) → Cells k (do_publish s p) (n + 1)
  publish-Cells x p own = record {
    several = several;
    mask = mask;
    steps = omega arith;
    order = order;
    room = room;
    ahead = λ r. ground (arith, at p, ahead r);
    free_cell = λ r. ground (arith, at p, free_cell r, apart p);
    full_cell = λ r. ground (arith, at p, full_cell r);
  }

  pub publish-Agrees :
      (x : A) (p : ℕ) (t : Pc A)
      → Agrees k s (enqueue_publish x p)
      → writes t ≢ some p
      → Agrees k s t
      → Agrees k (do_publish s p) t
  publish-Agrees x p (enqueue_cas y r) own ne h = ground (arith, at p)
  publish-Agrees x p (dequeue_cas r) own ne h = ground (arith, at p, apart r)
  publish-Agrees x p (dequeue_read r) own ne h = ground (arith, at p, apart r)
  publish-Agrees x p (dequeue_release r y) own ne h = ground (arith, at p, apart r)
  publish-Agrees x p t own ne h = ground (arith, at p)

  pub publish-Delivered :
      (x : A) (p : ℕ) (r : List (ℕ × A))
      → Agrees k s (enqueue_publish x p)
      → Delivered k s r
      → Delivered k (do_publish s p) r
  publish-Delivered x p [] own h = tt
  publish-Delivered x p ((a, y) ∷ r) own (lt, le, e, rest) =
      (lt, ground (arith, at p), e, publish-Delivered x p r own rest)

  pub write-Cells :
      (x : A) (p : ℕ) → Agrees k s (enqueue_write x p) → Cells k (do_write s x p) (n + 1)
  write-Cells x p own = record {
    several = several;
    mask = mask;
    steps = omega arith;
    order = order;
    room = room;
    ahead = λ r. ground (arith, at p, ahead r);
    free_cell = λ r. ground (arith, at p, free_cell r);
    full_cell = λ r. ground (arith, at p, full_cell r, apart r);
  }

  pub write-Agrees :
      (x : A) (p : ℕ) (t : Pc A)
      → Agrees k s (enqueue_write x p)
      → writes t ≢ some p
      → Agrees k s t
      → Agrees k (do_write s x p) t
  write-Agrees x p (enqueue_cas y r) own ne h = ground (arith, at p)
  write-Agrees x p t own ne h = ground (arith, at p)

  pub write-Agrees_self :
      (x : A) (p : ℕ)
      → Agrees k s (enqueue_write x p)
      → Agrees k (do_write s x p) (enqueue_publish x p)
  write-Agrees_self x p own = ground (arith, at p)

  pub write-Delivered :
      (x : A) (p : ℕ) (r : List (ℕ × A)) → Delivered k s r → Delivered k (do_write s x p) r
  write-Delivered x p [] h = tt
  write-Delivered x p ((a, y) ∷ r) (lt, le, e, rest) =
      (lt, ground (arith, at p), e, write-Delivered x p r rest)

  pub release-Cells :
      (x : A) (p : ℕ) → Agrees k s (dequeue_release p x) → Cells k (do_release s x p) (n + 1)
  release-Cells x p own = record {
    several = several;
    mask = mask;
    steps = omega arith;
    order = order;
    room = room;
    ahead = λ r. ground (arith, at p, ahead r);
    free_cell = λ r. ground (arith, at p, free_cell r);
    full_cell = λ r. ground (arith, at p, full_cell r, apart r, round p);
  }

  pub release-Agrees :
      (x : A) (p : ℕ) (t : Pc A)
      → Agrees k s (dequeue_release p x)
      → reads t ≢ some p
      → Agrees k s t
      → Agrees k (do_release s x p) t
  release-Agrees x p (enqueue_cas y r) own ne h = ground (arith, at p, apart p)
  release-Agrees x p (enqueue_write y r) own ne h = ground (arith, at p, apart p)
  release-Agrees x p (enqueue_publish y r) own ne h = ground (arith, at p, apart p)
  release-Agrees x p t own ne h = ground (arith, at p)

  pub release-Delivered :
      (x : A) (p : ℕ) (r : List (ℕ × A))
      → Agrees k s (dequeue_release p x)
      → Delivered k s r
      → Delivered k (do_release s x p) r
  release-Delivered x p [] own h = tt
  release-Delivered x p ((a, y) ∷ r) own (lt, le, e, rest) =
      (lt, ground (arith, at p), e, release-Delivered x p r own rest)

  pub release-Delivered_self :
      (x : A) (p : ℕ)
      → Agrees k s (dequeue_release p x)
      → Delivered k s s.received
      → Delivered k (do_release s x p) (do_release s x p).received
  release-Delivered_self x p own h =
      (own.0, ground (arith, at p), own.2, release-Delivered x p s.received own h)

  -- What has been taken out at `p` was given back, so a reader at `p` is the first.
  Absent-released :
      (x : A) (p : ℕ) (r : List (ℕ × A))
      → Agrees k s (dequeue_release p x)
      → Delivered k s r
      → Absent p r
  Absent-released x p [] own h = tt
  Absent-released x p ((a, y) ∷ r) own (lt, le, e, rest) =
      (λ same. ground (arith, two-le-pow k several), Absent-released x p r own rest)

  pub release-Once :
      (x : A) (p : ℕ)
      → Agrees k s (dequeue_release p x)
      → Delivered k s s.received
      → Once s.received
      → Once (do_release s x p).received
  release-Once x p own h o = (Absent-released x p s.received own h, o)

  -- A claim moves one of the two positions on by one.
  pub claim_enqueue-Cells :
      (x : A) (p : ℕ)
      → s.queue.enqueue_pos ≡ p
      → Agrees k s (enqueue_cas x p)
      → Cells k (do_claim_enqueue s x p) (n + 1)
  claim_enqueue-Cells x p e own = record {
    several = several;
    mask = mask;
    steps = omega arith;
    order = omega arith;
    room = ground (arith, free_cell p);
    ahead = ahead;
    free_cell = free_cell;
    full_cell = λ r. ground (arith, full_cell r);
  }

  pub claim_enqueue-Agrees :
      (x : A) (p : ℕ) (t : Pc A)
      → s.queue.enqueue_pos ≡ p
      → Agrees k s t
      → Agrees k (do_claim_enqueue s x p) t
  claim_enqueue-Agrees x p (enqueue_cas y r) e h = ground arith
  claim_enqueue-Agrees x p t e h = ground arith

  pub claim_enqueue-Agrees_self :
      (x : A) (p : ℕ)
      → s.queue.enqueue_pos ≡ p
      → Agrees k s (enqueue_cas x p)
      → Agrees k (do_claim_enqueue s x p) (enqueue_write x p)
  claim_enqueue-Agrees_self x p e own = ground arith

  pub claim_enqueue-Delivered :
      (x : A) (p : ℕ) (r : List (ℕ × A))
      → s.queue.enqueue_pos ≡ p
      → Delivered k s r
      → Delivered k (do_claim_enqueue s x p) r
  claim_enqueue-Delivered x p [] e h = tt
  claim_enqueue-Delivered x p ((a, y) ∷ r) e (lt, le, d, rest) =
      (lt, le, ground arith, claim_enqueue-Delivered x p r e rest)

  pub claim_dequeue-Cells :
      (p : ℕ)
      → s.queue.dequeue_pos ≡ p
      → Agrees k s (dequeue_cas p)
      → Cells k (do_claim_dequeue s p) (n + 1)
  claim_dequeue-Cells p e own = record {
    several = several;
    mask = mask;
    steps = omega arith;
    order = ground (arith, full_cell p);
    room = omega arith;
    ahead = λ r. omega (arith, ahead r);
    free_cell = λ r h. omega (arith, free_cell r h);
    full_cell = full_cell;
  }

  pub claim_dequeue-Agrees :
      (p : ℕ) (t : Pc A)
      → s.queue.dequeue_pos ≡ p
      → Agrees k s t
      → Agrees k (do_claim_dequeue s p) t
  claim_dequeue-Agrees p (dequeue_cas r) e h = ground arith
  claim_dequeue-Agrees p t e h = ground arith

  pub claim_dequeue-Agrees_self :
      (p : ℕ)
      → s.queue.dequeue_pos ≡ p
      → Agrees k s (dequeue_cas p)
      → Agrees k (do_claim_dequeue s p) (dequeue_read p)
  claim_dequeue-Agrees_self p e own = ground arith

  pub claim_dequeue-Delivered :
      (p : ℕ) (r : List (ℕ × A))
      → s.queue.dequeue_pos ≡ p
      → Delivered k s r
      → Delivered k (do_claim_dequeue s p) r
  claim_dequeue-Delivered p [] e h = tt
  claim_dequeue-Delivered p ((a, y) ∷ r) e (lt, le, d, rest) =
      (ground arith, le, d, claim_dequeue-Delivered p r e rest)
