-- ===== src/Counter/Interleaved/Single/Steps.antt =====
-- One turn of one thread, in every phase of the slot.
use nomad_tasks.Prelude.{ℕ, inl, refl, Bool, arith}
use nomad_tasks.Counter.{Waiter}
use nomad_tasks.Counter.Interleaved.{
  Pc, Shared, advance, turn, call_modify, idle, add_acquire, add_setup, add_publish, add_load,
  add_in_use, add_target, add_cas, add_release, add_done, modify, check_free, check_in_use,
  check_target, check_cas, check_push, check_release,
}
use nomad_tasks.Counter.Interleaved.Single.{Phase, unborn, taken, withdrawn, Holds, Fits}
use nomad_tasks.Counter.Interleaved.Single.Kept.{Spare, Kept, stay, leave}
use nomad_tasks.Counter.Interleaved.Single.Adder.{
  acquire-Kept, setup-Kept, publish-Kept, release-Kept, in_use-Kept, target-Kept, add_cas-Kept,
  done-Kept,
}
use nomad_tasks.Counter.Interleaved.Single.Checker.{
  modify-Kept, free-Kept, check_in_use-Kept, check_target-Kept, check_cas-Kept, push-Kept,
  check_release-Kept,
}

module _ (a : ℕ) (w : Waiter) (s : Shared) (t : ℕ) (spare : Spare s) where
  -- A call of `Increment` or `Decrement` begins where no other call is under way.
  turn-idle :
      (ph : Phase) (up : Bool) (by : ℕ)
      → Holds a w ph s
      → Fits a w ph s t idle
      → Kept a w ph s t idle (s, modify up by)
  turn-idle ph up by h f = leave a w s t spare ph idle (modify up by) refl h f (λ x y. cc)

  pub advance-Kept :
      (ph : Phase) (p : Pc) → Holds a w ph s → Fits a w ph s t p → Kept a w ph s t p (advance t s p)
  unfolding advance
  advance-Kept ph idle h f = stay a w s t spare ph idle idle refl h f (λ e v y. y)
  advance-Kept unborn (add_acquire v i) h f = acquire-Kept a w s t spare v i h f
  advance-Kept ph (add_acquire v i) h f = absurd (ground arith)
  advance-Kept taken (add_setup v i) h f = setup-Kept a w s t spare v i h f
  advance-Kept ph (add_setup v i) h f = absurd (ground arith)
  advance-Kept taken (add_publish v i) h f = publish-Kept a w s t spare v i h f
  advance-Kept ph (add_publish v i) h f = absurd (ground arith)
  advance-Kept ph (add_load v i) h f =
      stay a w s t spare ph (add_load v i) _ refl h f (λ e x y. ground arith)
  advance-Kept ph (add_in_use v i c) h f = in_use-Kept a w s t spare ph v i c h f
  advance-Kept ph (add_target v i c) h f = target-Kept a w s t spare ph v i c h f
  advance-Kept ph (add_cas v i) h f = add_cas-Kept a w s t spare ph v i h f
  advance-Kept withdrawn (add_release v i) h f = release-Kept a w s t spare v i h f
  advance-Kept ph (add_release v i) h f = absurd (ground arith)
  advance-Kept ph (add_done v r) h f = done-Kept a w s t spare ph v r h f
  advance-Kept ph (modify up by) h f = modify-Kept a w s t spare ph up by h f
  advance-Kept ph (check_free v i) h f = free-Kept a w s t spare ph v i h f
  advance-Kept ph (check_in_use v i) h f = check_in_use-Kept a w s t spare ph v i h f
  advance-Kept ph (check_target v i) h f = check_target-Kept a w s t spare ph v i h f
  advance-Kept ph (check_cas v i) h f = check_cas-Kept a w s t spare ph v i h f
  advance-Kept ph (check_push v i) h f = push-Kept a w s t spare ph v i h f
  advance-Kept ph (check_release v i) h f = check_release-Kept a w s t spare ph v i h f

  -- A turn that does not fit the thread's place changes nothing.
  push_stays :
      (ph : Phase) (v i : ℕ)
      → Holds a w ph s
      → Fits a w ph s t (check_push v i)
      → Kept a w ph s t (check_push v i) (s, check_push v i)
  push_stays ph v i h f = record {
    phase = ph;
    ended = λ e. inl e;
    pushed = λ u e. inl (ground arith, refl);
    holds = h;
    own = f;
    others = λ u r ne g. g;
    spare = spare;
    watched = λ e x. cc;
  }

  pub modify_turn-Kept :
      (ph : Phase) (up : Bool) (by : ℕ) (p : Pc)
      → Holds a w ph s
      → Fits a w ph s t p
      → Kept a w ph s t p (turn t (call_modify up by) s p)
  unfolding turn
  modify_turn-Kept ph up by idle h f = turn-idle ph up by h f
  modify_turn-Kept ph up by (check_push v i) h f = push_stays ph v i h f
  modify_turn-Kept ph up by p h f = stay a w s t spare ph p p refl h f (λ e x y. y)
