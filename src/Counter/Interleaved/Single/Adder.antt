-- ===== src/Counter/Interleaved/Single/Adder.antt =====
-- The steps of `AddWaitingFiber` (Counter.cpp), in every phase of the slot.
use nomad_tasks.Prelude.{
  ℕ, ◌≡◌, inl, inr, refl, sym, ap, ◌∙◌, true, false, ◌==◌, arith, Bool-cases, ltb,
}
use nomad_tasks.Counter.{
  Waiter, Added, done_already, acquire, setup_slot, store_in_use, release_slot,
}
use nomad_tasks.Counter.Interleaved.{
  Shared, on, advance, idle, add_acquire, add_setup, add_publish, add_in_use, add_target, add_cas,
  add_release, add_done,
}
use nomad_tasks.Counter.Interleaved.Single.{
  Phase, unborn, taken, published, withdrawn, gone, Holds, Fits,
}
use nomad_tasks.Counter.Interleaved.Single.Phases.{
  Fits-taken, Fits-published, Fits-withdrawn, Fits-gone, Fits-same,
}
use nomad_tasks.Counter.Interleaved.Single.Kept.{
  Spare, Kept, stay, leave, published-open, Born-Filled, Seen-Born, Seen-idle,
}

module _ (a : ℕ) (w : Waiter) (s : Shared) (t : ℕ) (spare : Spare s) where
  pub acquire-Kept :
      (v : Waiter) (i : ℕ)
      → Holds a w unborn s
      → Fits a w unborn s t (add_acquire v i)
      → Kept a w unborn s t (add_acquire v i) (advance t s (add_acquire v i))
  unfolding advance
  acquire-Kept v i h f =
      let e : ltb i s.counter.num_waiting_fibers ≡ true = ground (arith, spare.0) in
      let g : s.counter.free_waiting_slots i ≡ true = ground arith in
      rw (e, g)
        (record {
          phase = taken;
          ended = λ e. cc;
          pushed = λ u e. cc;
          holds = ground arith;
          own = ground arith;
          others = λ u r ne. Fits-taken a w s (on (acquire i) s) u r (λ e. ne (e ∙ sym f.0));
          spare = (spare.0, λ j lt below. ground (arith, spare.1 j lt below));
          watched = λ e v. cc;
        })

  pub setup-Kept :
      (v : Waiter) (i : ℕ)
      → Holds a w taken s
      → Fits a w taken s t (add_setup v i)
      → Kept a w taken s t (add_setup v i) (advance t s (add_setup v i))
  unfolding advance
  setup-Kept v i h f = record {
    phase = taken;
    ended = λ e. cc;
    pushed = λ u e. cc;
    holds = ground arith;
    own = ground arith;
    others = λ u r ne. Fits-same a w s (on (setup_slot i v) s) taken u r (λ _. ground arith);
    spare = spare;
    watched = λ e v. cc;
  }

  pub publish-Kept :
      (v : Waiter) (i : ℕ)
      → Holds a w taken s
      → Fits a w taken s t (add_publish v i)
      → Kept a w taken s t (add_publish v i) (advance t s (add_publish v i))
  unfolding advance
  publish-Kept v i h f = record {
    phase = published;
    ended = λ e. cc;
    pushed = λ u e. cc;
    holds = ground arith;
    own = ground arith;
    others =
        λ u r ne. Fits-published a w s (on (store_in_use i false) s) u r (λ e. ne (e ∙ sym f.0));
    spare = spare;
    watched = λ e v. inl refl;
  }

  pub release-Kept :
      (v : Waiter) (i : ℕ)
      → Holds a w withdrawn s
      → Fits a w withdrawn s t (add_release v i)
      → Kept a w withdrawn s t (add_release v i) (advance t s (add_release v i))
  unfolding advance
  release-Kept v i h f = record {
    phase = gone;
    ended = λ e. inr (f.0, ap (λ x. add_done x done_already) f.1);
    pushed = λ u e. cc;
    holds = ground arith;
    own = (f.0, f.1, inr (refl, refl));
    others = λ u r ne. Fits-gone a w s (on (release_slot i) s) u r (λ e. ne (e ∙ sym f.0));
    spare = (spare.0, λ j lt below. ground (arith, spare.1 j lt below));
    watched = λ e v. cc;
  }

  pub in_use-Kept :
      (ph : Phase) (v : Waiter) (i c : ℕ)
      → Holds a w ph s
      → Fits a w ph s t (add_in_use v i c)
      → Kept a w ph s t (add_in_use v i c) (advance t s (add_in_use v i c))
  unfolding advance
  in_use-Kept ph v i c h f = elim (Bool-cases (s.counter.waiting_fibers i).in_use) [
    | inl e ↦ rw e (
        leave a w s t spare ph (add_in_use v i c) _ refl h (f.0, f.1, inl (refl, f.3))
          (λ x y. ground (arith, published-open a w ph s h x)))
    | inr e ↦ rw e (stay a w s t spare ph (add_in_use v i c) _ refl h f (λ x y z. z))
  ]

  pub target-Kept :
      (ph : Phase) (v : Waiter) (i c : ℕ)
      → Holds a w ph s
      → Fits a w ph s t (add_target v i c)
      → Kept a w ph s t (add_target v i c) (advance t s (add_target v i c))
  unfolding advance
  target-Kept ph v i c h f = elim (Bool-cases ((s.counter.waiting_fibers i).target_value == c)) [
    | inl e ↦ rw e (stay a w s t spare ph (add_target v i c) _ refl h f (λ x y z. refl))
    | inr e ↦ rw e (
        leave a w s t spare ph (add_target v i c) _ refl h (f.0, f.1, inl (refl, f.3))
          (λ x y. ground (arith, Born-Filled a w ph s (Seen-Born a w ph f.3) h)))
  ]

  pub withdraw-Kept :
      (v : Waiter) (i : ℕ)
      → Holds a w published s
      → Fits a w published s t (add_cas v i)
      → Kept a w published s t (add_cas v i) (on (store_in_use i true) s, add_release v i)
  withdraw-Kept v i h f = record {
    phase = withdrawn;
    ended = λ e. cc;
    pushed = λ u e. cc;
    holds = ground arith;
    own = (f.0, f.1, f.2, refl);
    others =
        λ u r ne. Fits-withdrawn a w s (on (store_in_use i true) s) u r (λ e. ne (e ∙ sym f.0));
    spare = spare;
    watched = λ e v. cc;
  }

  pub add_cas-Kept :
      (ph : Phase) (v : Waiter) (i : ℕ)
      → Holds a w ph s
      → Fits a w ph s t (add_cas v i)
      → Kept a w ph s t (add_cas v i) (advance t s (add_cas v i))
  unfolding advance
  add_cas-Kept ph v i h f = elim (Bool-cases (s.counter.waiting_fibers i).in_use) [
    | inl e ↦ rw e (
        leave a w s t spare ph (add_cas v i) _ refl h (f.0, f.1, inl (refl, f.3))
          (λ x y. ground (arith, published-open a w ph s h x)))
    | inr e ↦ rw e (at_published ph h f e)
  ]
    where
      at_published :
          (ph : Phase)
          → Holds a w ph s
          → Fits a w ph s t (add_cas v i)
          → (s.counter.waiting_fibers i).in_use ≡ false
          → Kept a w ph s t (add_cas v i) (on (store_in_use i true) s, add_release v i)
      at_published published h f e = withdraw-Kept v i h f
      at_published ph h f e = absurd (ground arith)

  pub done-Kept :
      (ph : Phase) (v : Waiter) (r : Added)
      → Holds a w ph s
      → Fits a w ph s t (add_done v r)
      → Kept a w ph s t (add_done v r) (s, idle)
  done-Kept ph v r h (ta, vw, inl (_, seen)) =
      leave a w s t spare ph (add_done v r) idle refl h (λ _. Seen-idle a w ph seen) (λ x y. cc)
  done-Kept gone v r h (ta, vw, inr (_, e)) =
      leave a w s t spare gone (add_done v r) idle refl h (λ _ b. b) (λ x y. cc)
  done-Kept ph v r h (ta, vw, inr (_, e)) = absurd (ground arith)
