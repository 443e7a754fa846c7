-- ===== src/Manager/Switching/Returns.antt =====
-- Where `SwitchBack` goes (Fiber.cpp), at the end of the callbacks of ManagerCallbacks.cpp.
use nomad_tasks.Prelude.{
  ◌>>=◌, ℕ, ◌≡◌, ◌≢◌, refl, ap, ◌∙◌, some, List, [], ◌∷◌, true, false, arith, Bool-cases, inl, inr,
  ◌==◌, ==→eq, ==-refl,
}
use nomad_tasks.Fiber.{
  Fiber, FiberName, of_thread, of_pool, Fibers, switches, set_fiber, switch_by, switch_to, back_by,
  back_to, switch_back,
}
use nomad_tasks.Manager.{Manager}
use nomad_tasks.Manager.Interleaved as Interleaved
use nomad_tasks.Manager.Interleaved.{
  System, Pc, outside, running, parting, entering, Turn, current, start, AtHome, Homebound,
}
use nomad_tasks.Manager.Interleaved.Places.{Kept}
use nomad_tasks.Manager.Interleaved.Turns.{is_switch, step-Others, step-Keeps}
use nomad_tasks.Manager.Interleaved.Ownership.{New, first, start-Inv, step-Kept, Kept-apart}
use nomad_tasks.Manager.Switching.{landed, go_to_current, if_switch, step, run}

begun : (p q : Pc) → is_switch p q ≡ true → q ≢ outside
begun outside outside h e = cc
begun running outside h e = cc
begun parting outside h e = cc
begun entering q h e = cc
begun p q h e = cc

module _ {C : Type 0} (handle : FiberName → ℕ) where
  set-handle :
      (c : ℕ) (f : Fiber C) (fs : Fibers C)
      → f.handle ≡ some (handle (of_pool c))
      → ((g : FiberName) → (fs g).handle ≡ some (handle g))
      → (g : FiberName) → (set_fiber (of_pool c) f fs g).handle ≡ some (handle g)
  set-handle c f fs e h (of_thread j) = h (of_thread j)
  set-handle c f fs e h (of_pool j) = elim (Bool-cases (c == j)) [
    | inl same ↦ let q = ==→eq c j same in rw same (rw q at e)
    | inr other ↦ rw other (h (of_pool j))
  ]

module _ {F C : Type 0} (handle : FiberName → ℕ) where
  -- All fibers of the operating system are there, and the fiber of each thread that has begun goes back
  -- to the thread's own.
  pub record Homed (s : System F) (fs : Fibers C) : Type 0 where
    pub handles : (g : FiberName) → (fs g).handle ≡ some (handle g)
    pub back :
        (t : ℕ) → s.pc t ≢ outside → (fs (of_pool (current s t))).return_fiber ≡ some (of_thread t)

  set-back :
      (s : System F) (c t : ℕ) (f : Fiber C) (fs : Fibers C)
      → current s t ≡ c
      → f.return_fiber ≡ some (of_thread t)
      → ((u : ℕ)
          → t ≢ u
          → s.pc u ≢ outside
          → (c ≢ current s u) × ((fs (of_pool (current s u))).return_fiber ≡ some (of_thread u)))
      → (u : ℕ) → s.pc u ≢ outside
      → (set_fiber (of_pool c) f fs (of_pool (current s u))).return_fiber ≡ some (of_thread u)
  set-back s c t f fs at e others u begun = elim (Bool-cases (t == u)) [
    | inl same ↦ let q = ==→eq t u same in rw (← q) (rw (at, ==-refl c) e)
    | inr other ↦
        let (ne, b) = others u (ground arith) begun in
        let apart : (c == current s u) ≡ false = ground arith in rw apart b
  ]

  switch-Homed :
      (self t : ℕ) (a : Turn) (s : System F) (fs : Fibers C)
      → Kept (Interleaved.step (t, a) s)
      → (Interleaved.step (t, a) s).pc t ≢ outside
      → Homed s fs
      → (fs' : Fibers C) × (go_to_current self t (Interleaved.step (t, a) s) fs
          ≡ some (record { system = Interleaved.step (t, a) s; fibers = fs' }))
        × Homed (Interleaved.step (t, a) s) fs'
  unfolding go_to_current switch_to
  switch-Homed self t a s fs kept begun h =
      let s' = Interleaved.step (t, a) s in
      let c = current s' t in
      let f' = record (fs (of_pool c)) {
        user_data = some self;
        return_fiber = some (of_thread t);
      } in
      (
        set_fiber (of_pool c) f' fs,
        ap (λ o. landed (switch_by (of_thread t) (of_pool c) (some self) o fs) s')
            (h.handles (of_pool c)),
        record {
          handles = set-handle handle c f' fs (h.handles (of_pool c)) h.handles;
          back = set-back s' c t f' fs refl refl (λ u ne there.
              let (p, q) = step-Others t a s u ne in
              (Kept-apart s' t u kept ne begun there, rw q (h.back u (λ x. there (p ∙ x)))));
        },
      )

  stay-Homed :
      (t : ℕ) (a : Turn) (s : System F) (fs : Fibers C)
      → is_switch (s.pc t) ((Interleaved.step (t, a) s).pc t) ≡ false
      → Homed s fs
      → Homed (Interleaved.step (t, a) s) fs
  stay-Homed t a s fs none_now h = record {
    handles = h.handles;
    back = λ u there. elim (Bool-cases (t == u)) [
      | inl same ↦
          let q = ==→eq t u same in
          let (begun, e) = step-Keeps t a s none_now (rw (← q) at there) in
          rw (← q) (rw e (h.back t begun))
      | inr other ↦
          let (p, q) = step-Others t a s u (ground arith) in rw q (h.back u (λ x. there (p ∙ x)))
    ];
  }

  step-Homed :
      (self : ℕ) (e : ℕ × Turn) (s : System F) (fs : Fibers C)
      → Kept s
      → AtHome e s
      → Homed s fs
      → (fs' : Fibers C) × (step self e (record { system = s; fibers = fs })
          ≡ some (record { system = Interleaved.step e s; fibers = fs' }))
        × Homed (Interleaved.step e s) fs'
  unfolding step
  step-Homed self (t, a) s fs kept home h =
      let kept' = step-Kept (t, a) s kept home in
      elim (Bool-cases (is_switch (s.pc t) ((Interleaved.step (t, a) s).pc t))) [
        | inl now ↦
            let (fs', e, h') = switch-Homed self t a s fs kept' (begun (s.pc t) _ now) h in
            (fs', ap (λ b. if_switch b self t (Interleaved.step (t, a) s) fs) now ∙ e, h')
        | inr none_now ↦ (
          fs,
          ap (λ b. if_switch b self t (Interleaved.step (t, a) s) fs) none_now,
          stay-Homed t a s fs none_now h,
        )
      ]

  run-Homed :
      (self : ℕ) (es : List (ℕ × Turn)) (s : System F) (fs : Fibers C)
      → Kept s
      → Homebound es s
      → Homed s fs
      → (fs' : Fibers C) × (run self es (record { system = s; fibers = fs })
          ≡ some (record { system = Interleaved.run es s; fibers = fs' }))
        × Homed (Interleaved.run es s) fs'
  unfolding run Interleaved.run Interleaved.step
  run-Homed self [] s fs kept home h = (fs, refl, h)
  run-Homed self (e ∷ es) s fs kept (a, home) h =
      let (fs₁, q, h₁) = step-Homed self e s fs kept a h in
      let (fs₂, r, h₂) =
        run-Homed self es (Interleaved.step e s) fs₁ (step-Kept e s kept a) home h₁ in
      (fs₂, ap (λ o. o >>= run self es) q ∙ r, h₂)

  -- On a new manager whose fibers all have one of the operating system, and under a schedule in which a
  -- fiber that was left in `GetNextJob` is entered again by the thread that left it, and no fiber for
  -- which `AddWaitingFiber` gives back true is made ready as well, no switch throws, and `SwitchBack`, called on the current fiber of a thread that has begun, switches to that thread's
  -- own fiber, whichever thread last ran the fiber before.
  pub switch_back-own_thread :
      (self : ℕ) (m : Manager F) (es : List (ℕ × Turn)) (fs : Fibers C)
      → New m
      → Homebound es (start m)
      → ((g : FiberName) → (fs g).handle ≡ some (handle g))
      → (fs' : Fibers C) × (run self es (record { system = start m; fibers = fs })
          ≡ some (record { system = Interleaved.run es (start m); fibers = fs' }))
        × ((t : ℕ)
            → (Interleaved.run es (start m)).pc t ≢ outside
            → switch_back (of_pool (current (Interleaved.run es (start m)) t)) fs'
              ≡ switches (handle (of_thread t)) fs')
  unfolding switch_back
  switch_back-own_thread self m es fs new home there =
      let (fs', e, h) =
        run-Homed self es (start m) fs (first, start-Inv m new) home
          (record { handles = there; back = λ t begun. absurd (begun refl) }) in
      (
        fs',
        e,
        λ t begun.
            ap (λ o. back_to o fs') (h.back t begun)
            ∙ ap (λ o. back_by o fs') (h.handles (of_thread t)),
      )
