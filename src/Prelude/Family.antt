-- ===== src/Prelude/Family.antt =====
-- Families `ℕ → A`: an update at one index.
use Prim.Native.Nat.{ℕ}
use mathlib.Core.Path.{◌≡◌, fun_ext}
use mathlib.Core.Logic.{◌≢◌, inl, inr}
use native.Mathlib.Omega.{arith}
use nomad_tasks.Prelude.Tests.{◌==◌, ==→eq, if◌then◌else◌, Bool-cases}

module _ {ℓ} {A : Type ℓ} where
  abbrev pub update : (ℕ → A) → ℕ → A → ℕ → A
  update f i a j = if i == j then a else f j

  pub update_self : (f : ℕ → A) (i : ℕ) (a : A) → update f i a i ≡ a
  update_self f i a = ground arith

  pub update_ne : (f : ℕ → A) {i j : ℕ} (a : A) → i ≢ j → update f i a j ≡ f j
  update_ne f a h = ground arith

  pub update-update : (f : ℕ → A) (i : ℕ) (a b : A) → update (update f i a) i b ≡ update f i b
  update-update f i a b = fun_ext λ j. elim (Bool-cases (i == j)) [ inl e ↦ rw e | inr e ↦ rw e ]

module _ {ℓ ℓ'} {A : Type ℓ} where
  pub update_case :
      (P : A → Type ℓ') (h : ℕ → A) (i j : ℕ) (a : A)
      → (i ≡ j → P a)
      → (i ≢ j → P (h j))
      → P (update h i a j)
  update_case P h i j a x y = elim (Bool-cases (i == j)) [
    | inl e ↦ rw e (x (==→eq i j e))
    | inr e ↦ rw e (y (ground arith))
  ]
