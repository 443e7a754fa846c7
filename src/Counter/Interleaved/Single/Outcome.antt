-- ===== src/Counter/Interleaved/Single/Outcome.antt =====
-- What one call of `AddWaitingFiber` comes to, whatever the other threads do to the counter.
use nomad_tasks.Prelude.{
  ℕ, zero, suc, ◌+◌, ◌≤◌, ◌≡◌, ◌≢◌, ◌⊎◌, inl, inr, refl, sym, subst, ==-refl, ◌∙◌, Bool, true,
  false, List, [], ◌∷◌, ◌&&◌, ◌==◌, ◌++◌, ap, arith, update, Bool-cases, if◌then◌else◌, ltb, leb,
}
use nomad_tasks.Counter.{Waiter, done_already, new_counter, free_slots}
use nomad_tasks.Counter.Interleaved.{
  Pc, Turn, Shared, System, turn, step, run, start, call_add, call_modify, go, idle, add_done,
  check_push,
}
use nomad_tasks.Counter.Interleaved.Single.{
  Phase, unborn, taken, published, claimed, woken, withdrawn, gone, Busy, Holds, Fits, watches,
  pushes,
}
use nomad_tasks.Counter.Interleaved.Single.Kept.{Kept, Spare}
use nomad_tasks.Counter.Interleaved.Single.Steps.{advance-Kept, modify_turn-Kept}

-- No call of `AddWaitingFiber` begins.
abbrev pub NoAdd : List (ℕ × Turn) → Type 0
NoAdd [] = Unit {0}
NoAdd ((t, call_add w) ∷ es) = ⊥
NoAdd ((t, call_modify up by) ∷ es) = NoAdd es
NoAdd ((t, go) ∷ es) = NoAdd es

clash : false ≡ true → ⊥
clash e = cc

module _ (a : ℕ) (w : Waiter) where
  pub record Inv (s : System) : Type 0 where
    pub phase : Phase
    pub holds : Holds a w phase s.shared
    pub fits : (t : ℕ) → Fits a w phase s.shared t (s.pc t)
    pub spare : Spare s.shared
    pub watched :
        phase ≡ published
        → s.shared.counter.value ≡ w.target
        → (t : ℕ) × (watches a w (s.pc t) ≡ true)
    pub pusher : (t : ℕ) → phase ≡ claimed t → pushes (s.pc t) ≡ true

  module _ (s : System) (v : Inv s) (t : ℕ) (r : Shared × Pc)
      (k : Kept a w v.phase s.shared t (s.pc t) r) where
    abbrev after : System
    after = record { shared = r.0; pc = update s.pc t r.1 }

    new-Fits : (u : ℕ) → Fits a w k.phase r.0 u (after.pc u)
    new-Fits u = elim (Bool-cases (t == u)) [
      | inl e ↦
          let same : t ≡ u = ground arith in
          rw e (subst (λ x. Fits a w k.phase r.0 x r.1) same k.own)
      | inr e ↦ rw e (k.others u (s.pc u) (λ same. ground arith) (v.fits u))
    ]

    new_watched :
        k.phase ≡ published
        → r.0.counter.value ≡ w.target
        → (u : ℕ) × (watches a w (after.pc u) ≡ true)
    new_watched e x = elim (k.watched e x) [
      | inl here ↦ (t, rw (==-refl t) here)
      | inr (e', x', left) ↦
          let (u, old) = v.watched e' x' in
          elim (Bool-cases (t == u)) [
            | inl same ↦ let h : t ≡ u = ground arith in absurd (clash (sym (rw h at left) ∙ old))
            | inr other ↦ (u, rw other old)
          ]
    ]

    new_pusher : (u : ℕ) → k.phase ≡ claimed u → pushes (after.pc u) ≡ true
    new_pusher u e = elim (k.pushed u e) [
      | inl (same, here) ↦ rw (same, ==-refl t) here
      | inr (e', left) ↦
          let old = v.pusher u e' in
          elim (Bool-cases (t == u)) [
            | inl same ↦ let h : t ≡ u = ground arith in absurd (clash (sym (rw h at left) ∙ old))
            | inr other ↦ rw other old
          ]
    ]

    update-Inv : Inv after
    update-Inv = record {
      phase = k.phase;
      holds = k.holds;
      fits = new-Fits;
      spare = k.spare;
      watched = new_watched;
      pusher = new_pusher;
    }

  run-Inv : (es : List (ℕ × Turn)) (s : System) → NoAdd es → Inv s → Inv (run es s)
  unfolding run step turn
  run-Inv [] s h v = v
  run-Inv ((t, call_add w') ∷ es) s h v = absurd h
  run-Inv ((t, call_modify up by) ∷ es) s h v = run-Inv es _ h (
      update-Inv s v t _
        (modify_turn-Kept a w s.shared t v.spare v.phase up by (s.pc t) v.holds (v.fits t)))
  run-Inv ((t, go) ∷ es) s h v =
      run-Inv es _ h (
        update-Inv s v t _
          (advance-Kept a w s.shared t v.spare v.phase (s.pc t) v.holds (v.fits t)))

-- The call of thread `a` has come to its end, with the target reached, after some first part of
-- the schedule.
abbrev pub Ended : ℕ → Waiter → List (ℕ × Turn) → System → Type 0
Ended a w es s =
    (first : List (ℕ × Turn)) × (later : List (ℕ × Turn)) × (es ≡ first ++ later)
    × ((run first s).pc a ≡ add_done w done_already)

module _ (a : ℕ) (w : Waiter) where
  Ended-later :
      (e : ℕ × Turn) (es : List (ℕ × Turn)) (s : System)
      → Ended a w es (step e s)
      → Ended a w (e ∷ es) s
  unfolding run
  Ended-later e es s (first, later, eq, at) = (e ∷ first, later, ap (λ x. e ∷ x) eq, at)

  Ended-now :
      (e : ℕ × Turn) (es : List (ℕ × Turn)) (s : System)
      → (step e s).pc a ≡ add_done w done_already
      → Ended a w (e ∷ es) s
  unfolding run
  Ended-now e es s at = (e ∷ [], es, refl, at)

  own_pc : (pc : ℕ → Pc) (t u : ℕ) (p : Pc) → t ≡ u → update pc t p u ≡ p
  own_pc pc t u p same = rw same (rw (==-refl u) refl)

  -- The slot is given up for good only in a step that ends the call.
  gone-Ended :
      (es : List (ℕ × Turn)) (s : System) (h : NoAdd es) (v : Inv a w s)
      → (run-Inv a w es s h v).phase ≡ gone
      → (v.phase ≡ gone) ⊎ Ended a w es s
  unfolding run step turn run-Inv update-Inv
  gone-Ended [] s h v e = inl e
  gone-Ended ((t, call_add w') ∷ es) s h v e = absurd h
  gone-Ended ((t, call_modify up by) ∷ es) s h v e =
      let k = modify_turn-Kept a w s.shared t v.spare v.phase up by (s.pc t) v.holds (v.fits t) in
      elim (gone-Ended es _ h (update-Inv a w s v t _ k) e) [
        | inl x ↦ elim (k.ended x) [
          | inl old ↦ inl old
          | inr (same, at) ↦
              inr (Ended-now (t, call_modify up by) es s (own_pc s.pc t a _ same ∙ at))
        ]
        | inr x ↦ inr (Ended-later (t, call_modify up by) es s x)
      ]
  gone-Ended ((t, go) ∷ es) s h v e =
      let k = advance-Kept a w s.shared t v.spare v.phase (s.pc t) v.holds (v.fits t) in
      elim (gone-Ended es _ h (update-Inv a w s v t _ k) e) [
        | inl x ↦ elim (k.ended x) [
          | inl old ↦ inl old
          | inr (same, at) ↦ inr (Ended-now (t, go) es s (own_pc s.pc t a _ same ∙ at))
        ]
        | inr x ↦ inr (Ended-later (t, go) es s x)
      ]

-- The constructor marks every slot free.
free_slots-eq :
    (n i j : ℕ) (b : ℕ → Bool)
    → free_slots n i b j ≡ (if leb i j && ltb j (i + n) then true else b j)
unfolding free_slots
free_slots-eq zero i j b = ground arith
free_slots-eq (suc n) i j b = ground (arith, free_slots-eq n (i + 1) j (update b i true))

-- A new counter of `n` slots at `value`, where thread `a` has called `AddWaitingFiber` and no other
-- call is under way.
abbrev pub called : (ℕ → Bool) → ℕ → ℕ → ℕ → Waiter → System
called old n value a w = step (a, call_add w) (start (record (new_counter old n) { value = value }))

called-Inv :
    (old : ℕ → Bool) (n value a : ℕ) (w : Waiter) → 1 ≤ n → Inv a w (called old n value a w)
unfolding step turn new_counter
called-Inv old n value a w h = record {
  phase = unborn;
  holds = (ground (arith, free_slots-eq n 0 0 old), refl, refl);
  fits = λ t. elim (Bool-cases (a == t)) [
    | inl e ↦ rw e (ground arith, refl, refl, refl)
    | inr e ↦ rw e (λ same. ground arith)
  ];
  spare = (h, λ i lt below. ground (arith, free_slots-eq n 0 i old));
  watched = λ e x. cc;
  pusher = λ t e. cc;
}

module _ (old : ℕ → Bool) (n value a : ℕ) (w : Waiter) (several : 1 ≤ n) (es : List (ℕ × Turn))
    (alone : NoAdd es) where
  abbrev end : System
  end = run es (called old n value a w)

  end-Inv : Inv a w end
  end-Inv = run-Inv a w es (called old n value a w) alone (called-Inv old n value a w several)

  -- Of one call of `AddWaitingFiber` on a new counter, among any increments and decrements: at any
  -- time its fiber has been made ready at most once, by one thread.
  pub woken_at_most_once :
      ((end.shared.ready ≡ []) ⊎ ((t : ℕ) × (end.shared.ready ≡ (t, (w.fiber, w.stored)) ∷ [])))
  woken_at_most_once = ready_of end-Inv.phase end-Inv.holds
    where
      ready_of :
          (ph : Phase)
          → Holds a w ph end.shared
          → (end.shared.ready ≡ []) ⊎ ((t : ℕ) × (end.shared.ready ≡ (t, (w.fiber, w.stored)) ∷ []))
      ready_of unborn h = inl h.2
      ready_of taken h = inl h.2
      ready_of published h = inl h.2
      ready_of (claimed t) h = inl h.2
      ready_of (woken t) h = inr (t, h.1)
      ready_of withdrawn h = inl h.2
      ready_of gone h = inl h.2

  -- Of one call of `AddWaitingFiber` on a new counter, among any increments and decrements: when it
  -- ends because the target value is reached, no thread has made its fiber ready.
  pub done-not_woken : end.pc a ≡ add_done w done_already → end.shared.ready ≡ []
  done-not_woken e = ready_of end-Inv.phase end-Inv.holds (rw e at (end-Inv.fits a))
    where
      ready_of :
          (ph : Phase)
          → Holds a w ph end.shared
          → Fits a w ph end.shared a (add_done w done_already)
          → end.shared.ready ≡ []
      ready_of (woken t) h (_, _, inl (x, _)) = cc
      ready_of (woken t) h (_, _, inr (_, x)) = cc
      ready_of unborn h f = h.2
      ready_of taken h f = h.2
      ready_of published h f = h.2
      ready_of (claimed t) h f = h.2
      ready_of withdrawn h f = h.2
      ready_of gone h f = h.2

  -- Of one call of `AddWaitingFiber` on a new counter, among any increments and decrements: a
  -- thread is about to make its fiber ready only in a check for the target value.
  push_on_target : (t v i : ℕ) → end.pc t ≡ check_push v i → v ≡ w.target
  push_on_target t v i e = let f = rw e at (end-Inv.fits t) in f.2

  -- What one call may come to.
  abbrev pub Outcome : Type 0
  Outcome =
      ((t : ℕ) × (end.shared.ready ≡ (t, (w.fiber, w.stored)) ∷ []))
      ⊎ (((end.shared.ready ≡ [])
            × (end.shared.counter.free_waiting_slots 0 ≡ true)
            × Ended a w es (called old n value a w))
          ⊎ ((end.shared.ready ≡ [])
              × ((end.shared.counter.waiting_fibers 0).in_use ≡ false)
              × (end.shared.counter.value ≢ w.target)))

  gone_end : end-Inv.phase ≡ gone → Ended a w es (called old n value a w)
  unfolding end-Inv called-Inv
  gone_end e =
      elim (gone-Ended a w es (called old n value a w) alone (called-Inv old n value a w several)
        e) [ inl x ↦ cc | inr x ↦ x ]

  -- Of one call of `AddWaitingFiber` on a new counter, among any increments and decrements: once no
  -- call is under way, the fiber was made ready, once, by one thread; or it was not, its slot is
  -- free, and the call came to its end because the target value was reached; or it was not, it
  -- waits in its slot, and the counter does not have the target value.
  pub wait_outcome : ((t : ℕ) → end.pc t ≡ idle) → Outcome
  wait_outcome quiet = outcome end-Inv.phase refl end-Inv.holds
    where
      resting : ¬ Busy end-Inv.phase
      resting = let f = rw (quiet a) at (end-Inv.fits a) in f refl

      asleep : end-Inv.phase ≡ published → end.shared.counter.value ≢ w.target
      asleep e x = let (t, seen) = end-Inv.watched e x in let seen' = rw (quiet t) at seen in cc

      unclaimed : (t : ℕ) → end-Inv.phase ≢ claimed t
      unclaimed t e = let p = rw (quiet t) at (end-Inv.pusher t e) in cc

      outcome : (ph : Phase) → end-Inv.phase ≡ ph → Holds a w ph end.shared → Outcome
      outcome unborn e h = absurd (rw e at resting tt)
      outcome taken e h = absurd (rw e at resting tt)
      outcome published e h = inr (inr (h.2, h.1, asleep e))
      outcome (claimed t) e h = absurd (unclaimed t e)
      outcome (woken t) e h = inl (t, h.1)
      outcome withdrawn e h = absurd (rw e at resting tt)
      outcome gone e h = inr (inl (h.2, h.0, gone_end e))
