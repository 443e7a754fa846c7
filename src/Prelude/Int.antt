-- ===== src/Prelude/Int.antt =====
-- Signed integers over the native numbers, as far as a comparison of two machine words needs them.
use Prim.Native.Nat.{ℕ, suc, ◌+◌, ◌-◌, ◌^◌, ◌<◌}
use mathlib.Core.Path.{◌≡◌}
use mathlib.Core.Bool.{Bool, true, false}
use native.Mathlib.Omega.{arith}
use nomad_tasks.Prelude.Tests.{ltb, leb, ◌==◌, if◌then◌else◌}

-- `negsuc n` is -(n + 1).
pub data ℤ : Type 0 where
  pos : ℕ → ℤ
  negsuc : ℕ → ℤ

-- a - b, as an integer.
abbrev sub_ℕ : ℕ → ℕ → ℤ
sub_ℕ a b = if leb b a then pos (a - b) else negsuc (b - a - 1)

infixl 65 ◌-ℤ◌
unfoldable pub ◌-ℤ◌ : ℤ → ℤ → ℤ
pos a -ℤ pos b = sub_ℕ a b
pos a -ℤ negsuc b = pos (a + suc b)
negsuc a -ℤ pos b = negsuc (a + b)
negsuc a -ℤ negsuc b = sub_ℕ b a

abbrev pub is_zero : ℤ → Bool
is_zero (pos n) = n == 0
is_zero (negsuc n) = false

abbrev pub is_neg : ℤ → Bool
is_neg (pos n) = false
is_neg (negsuc n) = true

-- `(intptr_t)x` for a `size_t` x of 64 bits, in two's complement.
unfoldable pub to_intptr : ℕ → ℤ
to_intptr x = if ltb x (2 ^ 63) then pos x else negsuc (2 ^ 64 - 1 - x)

-- The sign of the difference of two words below 2 ^ 63 is their order.
pub dif_sign :
    (a b : ℕ)
    → a < 2 ^ 63
    → b < 2 ^ 63
    → (is_zero (to_intptr a -ℤ to_intptr b) ≡ (a == b))
      × (is_neg (to_intptr a -ℤ to_intptr b) ≡ ltb a b)
unfolding ◌-ℤ◌ to_intptr
dif_sign a b ha hb = (ground arith, ground arith)
