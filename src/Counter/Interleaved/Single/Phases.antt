-- ===== src/Counter/Interleaved/Single/Phases.antt =====
-- A change of the slot's phase by one thread, as the other threads see it.
use nomad_tasks.Prelude.{ℕ, ◌≢◌, arith}
use nomad_tasks.Counter.{Waiter}
use nomad_tasks.Counter.Interleaved.{Pc, Shared, add_publish, idle}
use nomad_tasks.Counter.Interleaved.Single.{
  Phase, unborn, taken, published, claimed, woken, withdrawn, gone, Filled, Fits,
}

module _ (a : ℕ) (w : Waiter) (s s' : Shared) where
  -- By the waiter, which is thread `a`.
  pub Fits-taken : (u : ℕ) (q : Pc) → u ≢ a → Fits a w unborn s u q → Fits a w taken s' u q
  Fits-taken u idle ne f = ground arith
  Fits-taken u q ne f = ground arith

  pub Fits-published : (u : ℕ) (q : Pc) → u ≢ a → Fits a w taken s u q → Fits a w published s' u q
  Fits-published u idle ne f = ground arith
  Fits-published u q ne f = ground arith

  pub Fits-withdrawn :
      (u : ℕ) (q : Pc) → u ≢ a → Fits a w published s u q → Fits a w withdrawn s' u q
  Fits-withdrawn u idle ne f = ground arith
  Fits-withdrawn u q ne f = ground arith

  pub Fits-gone : (u : ℕ) (q : Pc) → u ≢ a → Fits a w withdrawn s u q → Fits a w gone s' u q
  Fits-gone u idle ne f = ground arith
  Fits-gone u q ne f = ground arith

  -- By the thread `t` that wakes the fiber.
  pub Fits-claimed : (t u : ℕ) (q : Pc) → Fits a w published s u q → Fits a w (claimed t) s' u q
  Fits-claimed t u idle f = ground arith
  Fits-claimed t u q f = ground arith

  pub Fits-woken :
      (t u : ℕ) (q : Pc) → u ≢ t → Fits a w (claimed t) s u q → Fits a w (woken t) s' u q
  Fits-woken t u idle ne f = ground arith
  Fits-woken t u q ne f = ground arith

  -- In one phase the others see only what the slot holds.
  pub Fits-same :
      (ph : Phase) (u : ℕ) (q : Pc)
      → (Filled a w s → Filled a w s')
      → Fits a w ph s u q
      → Fits a w ph s' u q
  Fits-same ph u (add_publish v i) keep (x, y, z, e, f) = (x, y, z, e, keep f)
  Fits-same ph u q keep f = f
