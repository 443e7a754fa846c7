-- ===== src/Counter/Interleaved/Single/Kept.antt =====
-- What one step of one thread leads to, and the steps that leave memory and phase alone.
use nomad_tasks.Prelude.{ℕ, ◌≤◌, ◌<◌, ◌≡◌, ◌≢◌, ◌⊎◌, inl, inr, refl, true, false, arith, Bool-cases}
use nomad_tasks.Counter.{Waiter, done_already}
use nomad_tasks.Counter.Interleaved.{Pc, Shared, add_done, on}
use nomad_tasks.Counter.Interleaved.Single.{
  Phase, unborn, taken, published, claimed, woken, withdrawn, gone, Filled, Seen, Born, Busy, Holds,
  Fits, watches, pushes,
}

-- The slots beyond the first are free, and there is a first.
abbrev pub Spare : Shared → Type 0
Spare s =
    (1 ≤ s.counter.num_waiting_fibers)
    × ((i : ℕ) → 0 < i → i < s.counter.num_waiting_fibers → s.counter.free_waiting_slots i ≡ true)

module _ (a : ℕ) (w : Waiter) where
  pub Born-Filled : (ph : Phase) (s : Shared) → Born ph → Holds a w ph s → Filled a w s
  Born-Filled unborn s b h = absurd b
  Born-Filled taken s b h = absurd b
  Born-Filled ph s b h = ground arith

  pub Seen-Born : (ph : Phase) → Seen ph → Born ph
  Seen-Born published x = tt
  Seen-Born (claimed t) x = tt
  Seen-Born (woken t) x = tt
  Seen-Born ph x = absurd x

  pub Seen-idle : (ph : Phase) → Seen ph → ¬ Busy ph
  Seen-idle unborn x y = x
  Seen-idle taken x y = x
  Seen-idle withdrawn x y = x
  Seen-idle ph x y = y

  -- Only a published slot is not in use; before, it was in use.
  pub published-open :
      (ph : Phase) (s : Shared)
      → Holds a w ph s
      → ph ≡ published
      → ((s.counter.waiting_fibers 0).in_use ≡ false) × (s.counter.free_waiting_slots 0 ≡ false)
  published-open published s h e = (h.1, h.0)
  published-open ph s h e = cc

  pub open-published :
      (ph : Phase) (s : Shared)
      → Holds a w ph s
      → (s.counter.waiting_fibers 0).in_use ≡ false
      → ph ≡ published
  open-published published s h e = refl
  open-published ph s h e = absurd (ground arith)

  pub Holds-value :
      (ph : Phase) (s : Shared) (v : ℕ)
      → Holds a w ph s
      → Holds a w ph (on (λ c. record c { value = v }) s)
  Holds-value unborn s v h = h
  Holds-value taken s v h = h
  Holds-value published s v h = h
  Holds-value (claimed t) s v h = h
  Holds-value (woken t) s v h = h
  Holds-value withdrawn s v h = h
  Holds-value gone s v h = h

  -- What a step of thread `t`, from `p` in phase `ph`, leads to.
  pub record Kept (ph : Phase) (s : Shared) (t : ℕ) (p : Pc) (r : Shared × Pc) : Type 0 where
    pub phase : Phase
    pub holds : Holds a w phase r.0
    pub own : Fits a w phase r.0 t r.1
    pub others : (u : ℕ) (q : Pc) → u ≢ t → Fits a w ph s u q → Fits a w phase r.0 u q
    pub spare : Spare r.0
    pub pushed :
        (u : ℕ)
        → phase ≡ claimed u
        → ((u ≡ t) × (pushes r.1 ≡ true)) ⊎ ((ph ≡ claimed u) × (pushes p ≡ false))
    pub ended : phase ≡ gone → (ph ≡ gone) ⊎ ((t ≡ a) × (r.1 ≡ add_done w done_already))
    pub watched :
        phase ≡ published
        → r.0.counter.value ≡ w.target
        → (watches a w r.1 ≡ true)
          ⊎ ((ph ≡ published) × (s.counter.value ≡ w.target) × (watches a w p ≡ false))

  module _ (s : Shared) (t : ℕ) (spare : Spare s) where
    -- A step that leaves memory and phase alone, and the watch as it is.
    pub stay :
        (ph : Phase) (p q : Pc)
        → pushes p ≡ false
        → Holds a w ph s
        → Fits a w ph s t q
        → (ph ≡ published
            → s.counter.value ≡ w.target
            → watches a w p ≡ true
            → watches a w q ≡ true)
        → Kept ph s t p (s, q)
    stay ph p q n h f keep = record {
      pushed = λ u e. inr (e, n);
      phase = ph;
      ended = λ e. inl e;
      holds = h;
      own = f;
      others = λ u r ne g. g;
      spare = spare;
      watched = λ e v. elim (Bool-cases (watches a w p)) [
        | inl yes' ↦ inl (keep e v yes')
        | inr not' ↦ inr (e, v, not')
      ];
    }

    -- A loop that passes a slot by does so because nobody waits there.
    pub leave :
        (ph : Phase) (p q : Pc)
        → pushes p ≡ false
        → Holds a w ph s
        → Fits a w ph s t q
        → (ph ≡ published → watches a w p ≡ true → ⊥)
        → Kept ph s t p (s, q)
    leave ph p q n h f never = stay ph p q n h f (λ e v y. absurd (never e y))
