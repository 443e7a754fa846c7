-- ===== src/Mpmc/Create.antt =====
-- The constructor of the queue (mpmc_queue.h): which sizes its assertion lets pass, and the state
-- that it leaves.
use native.Mathlib.Nat.{mod-lt, mod_self, pow-zero}
use nomad_tasks.Prelude.{
  ℕ, zero, suc, ◌+◌, ◌-◌, ◌%◌, ◌^◌, ◌≤◌, ◌≡◌, refl, ◌&&◌, some, arith, ltb, leb, if◌then◌else◌,
  bit_and-mask, pow_pos, power_of_bit_and, update,
}
use nomad_tasks.Mpmc.{Mpmc, Cell, number_cells, create, fresh}
use nomad_tasks.Mpmc.Index.{two-le-pow}

module _ {A : Type 0} where
  -- The loop numbers the cells from `i` to `i + n`, and leaves the others.
  number_cells-sequence :
      (n i j : ℕ) (b : ℕ → Cell A)
      → (number_cells n i b j).sequence ≡ (if leb i j && ltb j (i + n) then j else (b j).sequence)
  unfolding number_cells
  number_cells-sequence zero i j b = ground arith
  number_cells-sequence (suc n) i j b =
      ground (arith, number_cells-sequence n (i + 1) j (update b i (record (b i) { sequence = i })))

  number_cells-content :
      (n i j : ℕ) (b : ℕ → Cell A) → (number_cells n i b j).content ≡ (b j).content
  unfolding number_cells
  number_cells-content zero i j b = refl
  number_cells-content (suc n) i j b =
      ground (arith, number_cells-content n (i + 1) j (update b i (record (b i) { sequence = i })))

  pub record Fresh (k : ℕ) (q : Mpmc A) : Type 0 where
    pub mask : q.buffer_mask ≡ 2 ^ k - 1
    pub enqueue_zero : q.enqueue_pos ≡ 0
    pub dequeue_zero : q.dequeue_pos ≡ 0
    pub numbered : (p : ℕ) → (q.buffer (p % 2 ^ k)).sequence ≡ p % 2 ^ k

  pub create-Fresh : (blank : A) (k : ℕ) (q : Mpmc A) → create blank (2 ^ k) ≡ some q → Fresh k q
  unfolding create
  create-Fresh blank k q made = record {
    mask = ground arith;
    enqueue_zero = ground arith;
    dequeue_zero = ground arith;
    numbered = λ p. ground (
      arith,
      mod-lt p (pow_pos k),
      number_cells-sequence (2 ^ k) 0 (p % 2 ^ k) (λ _. record { sequence = 0; content = blank }),
    );
  }

  -- For every power of two from 2 on the constructor makes a queue.
  pub create_total : (blank : A) (k : ℕ) → 1 ≤ k → create blank (2 ^ k) ≡ some (fresh blank (2 ^ k))
  unfolding create
  create_total blank k h = ground (arith, bit_and-mask (2 ^ k) k, two-le-pow k h, mod_self (2 ^ k))

  -- Where the constructor makes a queue, the size is a power of two, from 2 on.
  create-power :
      (blank : A) (size : ℕ) (q : Mpmc A)
      → create blank size ≡ some q
      → (k : ℕ) × (1 ≤ k) × (size ≡ 2 ^ k)
  unfolding create
  create-power blank size q made =
      let (k, e) = power_of_bit_and size (ground arith) (ground arith) in
      (k, ground (arith, pow-zero 2), e)
