-- ===== src/Mpmc/Index.antt =====
-- Cell numbers: `pos & buffer_mask_` is a remainder, and two positions of one cell are a multiple of
-- the size apart. A queue of at least two cells tells `pos`, `pos + 1` and `pos + size` apart.
use native.Mathlib.Nat.{mod-lt, pow-suc}
use nomad_tasks.Prelude.{
  ℕ, zero, suc, ◌+◌, ◌-◌, ◌%◌, ◌^◌, ◌≤◌, ◌<◌, ◌≡◌, ◌≢◌, arith, bit_and-mask, pow_pos,
}
use nomad_tasks.Mpmc.{Mpmc, index}

pub two-le-pow : (k : ℕ) → 1 ≤ k → 2 ≤ 2 ^ k
two-le-pow zero h = absurd (omega arith)
two-le-pow (suc k) h = omega (arith, pow-suc 2 k, pow_pos k)

-- The next position is another cell's.
pub mod-suc-ne : (n a : ℕ) → 2 ≤ n → (a + 1) % n ≡ a % n → ⊥
mod-suc-ne n a h e = grind arith

-- The position after one round is the same cell's.
pub mod-add_self : (n a : ℕ) → 0 < n → (a + n) % n ≡ a % n
mod-add_self n a h = grind arith

-- Fewer positions than cells, and no cell twice.
pub mod-ne_of_lt : (n a b : ℕ) → a < b → b < a + n → a % n ≢ b % n
mod-ne_of_lt n a b h l e = grind arith

module _ {ℓ} {A : Type ℓ} (q : Mpmc A) (k : ℕ) (mask : q.buffer_mask ≡ 2 ^ k - 1) where
  pub index-eq-mod : (pos : ℕ) → index q pos ≡ pos % 2 ^ k
  index-eq-mod pos = rw mask (bit_and-mask pos k)

  -- No access lies outside the `buffer_mask + 1` cells.
  pub index-le-mask : (pos : ℕ) → index q pos ≤ q.buffer_mask
  index-le-mask pos = omega (arith, index-eq-mod pos, mod-lt pos (pow_pos k))
