-- ===== src/Prelude/Bits.antt =====
-- A mask of ones is a remainder: `x & (2 ^ k - 1)` for every width.
use Prim.Native.Nat.{
  ℕ, zero, suc, ◌+◌, ◌-◌, ◌*◌, ◌/◌, ◌%◌, ◌^◌, ◌≤◌, ◌<◌, min, bit_and, digits, bit_and-bitwise,
}
use mathlib.Core.Path.{◌≡◌, refl, sym, ◌∙◌}
use native.Mathlib.Nat.{pow-suc, mod-one}
use native.Mathlib.Decide.{ℕ_discrete}
use native.Mathlib.Omega.{arith}

pub pow_pos : (k : ℕ) → 0 < 2 ^ k
pow_pos zero = omega arith
pow_pos (suc k) = omega (arith, pow-suc 2 k, pow_pos k)

-- Division by 2m in two stages.
mod-double : (a m : ℕ) → 0 < m → a % (m * 2) ≡ a / 2 % m * 2 + a % 2
mod-double a m h = grind arith

abbrev masked : ℕ → ℕ → ℕ → ℕ
masked n a b = digits (λ b. zero) min n a b

masked-zero : (n a : ℕ) → masked n a 0 ≡ 0
masked-zero zero a = refl
masked-zero (suc n) zero = refl
masked-zero (suc n) (suc a) = omega (arith, masked-zero n (suc a / 2))

-- The digits of a mask: its lowest is 1, and the others are those of the next smaller mask.
mask-half : (k : ℕ) → ((2 ^ suc k - 1) / 2 ≡ 2 ^ k - 1) × ((2 ^ suc k - 1) % 2 ≡ 1)
mask-half k = omega (arith, pow-suc 2 k, pow_pos k)

masked-eq-mod : (k n a : ℕ) → a ≤ n → masked n a (2 ^ k - 1) ≡ a % 2 ^ k
masked-eq-mod zero n a h = masked-zero n a ∙ sym (mod-one a)
masked-eq-mod (suc k) zero zero h = omega arith
masked-eq-mod (suc k) zero (suc a) h = absurd (omega arith)
masked-eq-mod (suc k) (suc n) zero h = omega arith
masked-eq-mod (suc k) (suc n) (suc a) h =
    let (h₁, h₂) = mask-half k in
    rw (h₁, h₂, masked-eq-mod k n (suc a / 2) (omega arith), pow-suc 2 k)
      (omega (arith, mod-double (suc a) (2 ^ k) (pow_pos k)))

-- `x & (2 ^ k - 1)` keeps the k lowest bits.
pub bit_and-mask : (a k : ℕ) → bit_and a (2 ^ k - 1) ≡ a % 2 ^ k
bit_and-mask a k = bit_and-bitwise a (2 ^ k - 1) ∙ masked-eq-mod k a a (omega arith)

masked_self : (n a : ℕ) → a ≤ n → masked n a a ≡ a
masked_self zero a h = omega arith
masked_self (suc n) zero h = refl
masked_self (suc n) (suc a) h = omega (arith, masked_self n (suc a / 2) (omega arith))

power_of_masked : (n a : ℕ) → a ≤ n → 0 < a → masked n a (a - 1) ≡ 0 → (k : ℕ) × (a ≡ 2 ^ k)
power_of_masked zero a h p e = absurd (omega arith)
power_of_masked (suc n) zero h p e = absurd (omega arith)
power_of_masked (suc n) (suc a) h p e = elim (ℕ_discrete (suc a % 2) 0) [
  | yes even ↦
      let r : masked n (suc a / 2) (suc a / 2 - 1) ≡ 0 =
        let d : (suc a - 1) / 2 ≡ suc a / 2 - 1 = omega arith in rw (← d) (omega arith) in
      let (k, q) = power_of_masked n (suc a / 2) (omega arith) (omega arith) r in
      (suc k, omega (arith, pow-suc 2 k))
  | no odd ↦
      let r : masked n (suc a / 2) ((suc a - 1) / 2) ≡ 0 = omega arith in
      let d : (suc a - 1) / 2 ≡ suc a / 2 = omega arith in
      let r' : masked n (suc a / 2) (suc a / 2) ≡ 0 = rw d at r in
      (0, omega (arith, masked_self n (suc a / 2)))
]

-- `x & (x - 1)` is 0 for the powers of two alone.
pub power_of_bit_and : (a : ℕ) → 0 < a → bit_and a (a - 1) ≡ 0 → (k : ℕ) × (a ≡ 2 ^ k)
power_of_bit_and a p e = power_of_masked a a (omega arith) p (sym (bit_and-bitwise a (a - 1)) ∙ e)
