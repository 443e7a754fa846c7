-- ===== src/Mpmc/Fifo.antt =====
-- `enqueue` and `dequeue` of mpmc_queue.h with no other thread at work, against a bounded FIFO.
pub mod Calls
pub mod Refine
pub mod Created
pub mod Tests
use native.Mathlib.Nat.{mod-lt}
use nomad_tasks.Prelude.{
  ℕ, zero, suc, ◌+◌, ◌-◌, ◌%◌, ◌^◌, ◌≤◌, ◌<◌, ◌≡◌, ◌≢◌, refl, sym, ap, ap₂, ◌∙◌, Bool, true, false,
  Option, none, some, arith, ltb, leb, ◌==◌, if◌then◌else◌, bit_and, bit_and-mask, pow_pos, update,
  List, [], ◌∷◌, ◌++◌, length, dec_lt, is_zero, is_neg, ==-refl, dif_sign, to_intptr, ◌-ℤ◌,
}
use nomad_tasks.Mpmc.{
  Mpmc, Cell, enqueue_dif, dequeue_dif, sequence_at, index, size_mod, enqueue, enqueue_loop,
  dequeue, dequeue_loop, publish, release, write_data, claim_enqueue, claim_dequeue, read_data,
}
use nomad_tasks.Mpmc.Index.{two-le-pow, mod-suc-ne, mod-add_self, mod-ne_of_lt, index-eq-mod}

-- The specification: at most `cap` items, oldest first.
module _ {A : Type 0} where
  unfoldable pub push : ℕ → A → List A → Bool × List A
  push cap x xs = if ltb (length xs) cap then (true, xs ++ (x ∷ [])) else (false, xs)

  unfoldable pub pop : List A → Option A × List A
  pop [] = (none, [])
  pop (x ∷ xs) = (some x, xs)

module _ {A : Type 0} (k : ℕ) (q : Mpmc A) where
  abbrev pub cell : ℕ → Cell A
  cell p = q.buffer (p % 2 ^ k)

  -- The items of `n` positions from `p` on.
  abbrev pub window : ℕ → ℕ → List A
  window p zero = []
  window p (suc n) = (cell p).content ∷ window (p + 1) n

  abbrev pub contents : List A
  contents = window q.dequeue_pos (q.enqueue_pos - q.dequeue_pos)

  pub length-window : (p n : ℕ) → length (window p n) ≡ n
  length-window p zero = refl
  length-window p (suc n) = ap suc (length-window (p + 1) n)

  -- A queue of `2 ^ k` cells at rest: each cell from the oldest item on is full up to
  -- `enqueue_pos`, and free from there to the end of the round.
  pub record Valid : Type 0 where
    pub several : 1 ≤ k
    pub mask : q.buffer_mask ≡ 2 ^ k - 1
    pub order : q.dequeue_pos ≤ q.enqueue_pos
    pub room : q.enqueue_pos ≤ q.dequeue_pos + 2 ^ k
    pub filled : (p : ℕ) → q.dequeue_pos ≤ p → p < q.enqueue_pos → (cell p).sequence ≡ p + 1
    pub vacant : (p : ℕ) → q.enqueue_pos ≤ p → p < q.dequeue_pos + 2 ^ k → (cell p).sequence ≡ p
