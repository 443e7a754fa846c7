-- ===== src/Counter/Interleaved/Single/Checker.antt =====
-- The steps of `Increment`, `Decrement` and `CheckWaitingFibers` (Counter.cpp), in every phase of
-- the slot.
use nomad_tasks.Prelude.{
  ℕ, ◌≡◌, inl, inr, refl, ap, ==-refl, ◌∙◌, Bool, true, false, ◌==◌, arith, Bool-cases, ltb,
}
use nomad_tasks.Counter.{Waiter, store_in_use, release_slot}
use nomad_tasks.Counter.Interleaved.{
  Shared, on, advance, changed, idle, modify, check_free, check_in_use, check_target, check_cas,
  check_push, check_release,
}
use nomad_tasks.Counter.Interleaved.Single.{Phase, published, claimed, woken, Holds, Fits}
use nomad_tasks.Counter.Interleaved.Single.Phases.{Fits-claimed, Fits-woken, Fits-same}
use nomad_tasks.Counter.Interleaved.Single.Kept.{
  Spare, Kept, stay, leave, published-open, open-published, Born-Filled, Holds-value,
}

module _ (a : ℕ) (w : Waiter) (s : Shared) (t : ℕ) (spare : Spare s) where
  pub modify-Kept :
      (ph : Phase) (up : Bool) (by : ℕ)
      → Holds a w ph s
      → Fits a w ph s t (modify up by)
      → Kept a w ph s t (modify up by) (advance t s (modify up by))
  unfolding advance
  modify-Kept ph up by h f = record {
    phase = ph;
    ended = λ e. inl e;
    pushed = λ u e. inr (e, refl);
    holds = Holds-value a w ph s (changed up s.counter.value by) h;
    own = f;
    others = λ u r ne.
        Fits-same a w s (on (λ c. record c { value = changed up s.counter.value by }) s) ph u r
          (λ x. x);
    spare = spare;
    watched = λ e v. inl (rw v (ground (arith, ==-refl w.target)));
  }

  pub free-Kept :
      (ph : Phase) (v i : ℕ)
      → Holds a w ph s
      → Fits a w ph s t (check_free v i)
      → Kept a w ph s t (check_free v i) (advance t s (check_free v i))
  unfolding advance
  free-Kept ph v i h f = elim (Bool-cases (ltb i s.counter.num_waiting_fibers)) [
    | inr end ↦
        rw end
          (leave a w s t spare ph (check_free v i) idle refl h f (λ x y. ground (arith, spare.0)))
    | inl more ↦ rw more (elim (Bool-cases (s.counter.free_waiting_slots i)) [
      | inl e ↦ rw e (
          leave a w s t spare ph (check_free v i) _ refl h f
            (λ x y. ground (arith, published-open a w ph s h x)))
      | inr e ↦ rw e (
          stay a w s t spare ph (check_free v i) _ refl h (f, ground (arith, spare.1 i))
            (λ x y z. ground arith))
    ])
  ]

  pub check_in_use-Kept :
      (ph : Phase) (v i : ℕ)
      → Holds a w ph s
      → Fits a w ph s t (check_in_use v i)
      → Kept a w ph s t (check_in_use v i) (advance t s (check_in_use v i))
  unfolding advance
  check_in_use-Kept ph v i h f = elim (Bool-cases (s.counter.waiting_fibers i).in_use) [
    | inl e ↦ rw e (
        leave a w s t spare ph (check_in_use v i) _ refl h f.0
          (λ x y. ground (arith, published-open a w ph s h x)))
    | inr e ↦
        let open' : ph ≡ published = open-published a w ph s h (ground arith) in
        rw e
          (stay a w s t spare ph (check_in_use v i) _ refl h (f.0, f.1, rw open' tt) (λ x y z. z))
  ]

  pub check_target-Kept :
      (ph : Phase) (v i : ℕ)
      → Holds a w ph s
      → Fits a w ph s t (check_target v i)
      → Kept a w ph s t (check_target v i) (advance t s (check_target v i))
  unfolding advance
  check_target-Kept ph v i h f =
      let slot = Born-Filled a w ph s f.2 h in
      elim (Bool-cases ((s.counter.waiting_fibers i).target_value == v)) [
        | inl e ↦ rw e (
            stay a w s t spare ph (check_target v i) _ refl h (f.0, f.1, f.2, ground (arith, slot))
              (λ x y z. refl))
        | inr e ↦
            rw e
              (leave a w s t spare ph (check_target v i) _ refl h f.0 (λ x y. ground (arith, slot)))
      ]

  pub claim-Kept :
      (v i : ℕ)
      → Holds a w published s
      → Fits a w published s t (check_cas v i)
      → Kept a w published s t (check_cas v i) (on (store_in_use i true) s, check_push v i)
  claim-Kept v i h f = record {
    phase = claimed t;
    ended = λ e. cc;
    pushed = λ u e. inl (ground arith, refl);
    holds = ground arith;
    own = (f.1, refl, f.3);
    others = λ u r ne. Fits-claimed a w s (on (store_in_use i true) s) t u r;
    spare = spare;
    watched = λ e v. cc;
  }

  pub check_cas-Kept :
      (ph : Phase) (v i : ℕ)
      → Holds a w ph s
      → Fits a w ph s t (check_cas v i)
      → Kept a w ph s t (check_cas v i) (advance t s (check_cas v i))
  unfolding advance
  check_cas-Kept ph v i h f = elim (Bool-cases (s.counter.waiting_fibers i).in_use) [
    | inl e ↦ rw e (
        leave a w s t spare ph (check_cas v i) _ refl h f.0
          (λ x y. ground (arith, published-open a w ph s h x)))
    | inr e ↦ rw e (at_published ph h f e)
  ]
    where
      at_published :
          (ph : Phase)
          → Holds a w ph s
          → Fits a w ph s t (check_cas v i)
          → (s.counter.waiting_fibers i).in_use ≡ false
          → Kept a w ph s t (check_cas v i) (on (store_in_use i true) s, check_push v i)
      at_published published h f e = claim-Kept v i h f
      at_published ph h f e = absurd (ground arith)

  pub push-Kept :
      (ph : Phase) (v i : ℕ)
      → Holds a w ph s
      → Fits a w ph s t (check_push v i)
      → Kept a w ph s t (check_push v i) (advance t s (check_push v i))
  unfolding advance
  push-Kept (claimed u) v i h f =
      let same : u ≡ t = ground arith in
      record {
        phase = woken u;
        ended = λ e. cc;
        pushed = λ u e. cc;
        holds = ground arith;
        own = (f.0, ap woken same);
        others =
            λ x r ne. Fits-woken a w s (advance t s (check_push v i)).0 u x r (λ e. ne (e ∙ same));
        spare = spare;
        watched = λ e v. cc;
      }
  push-Kept ph v i h f = absurd (ground arith)

  pub check_release-Kept :
      (ph : Phase) (v i : ℕ)
      → Holds a w ph s
      → Fits a w ph s t (check_release v i)
      → Kept a w ph s t (check_release v i) (advance t s (check_release v i))
  unfolding advance
  check_release-Kept (woken u) v i h f = record {
    phase = woken u;
    ended = λ e. cc;
    pushed = λ u e. cc;
    holds = h;
    own = λ _ b. b;
    others = λ x r ne. Fits-same a w s (on (release_slot i) s) (woken u) x r (λ y. y);
    spare = (spare.0, λ j lt below. ground (arith, spare.1 j lt below));
    watched = λ e v. cc;
  }
  check_release-Kept ph v i h f = absurd (ground arith)
