-- ===== src/JobBuffer/Late.antt =====
-- When delegates are called, and what is called.
use nomad_tasks.Prelude.{
  update_case, ℕ, ◌≡◌, refl, Option, some, none, List, [], ◌∷◌, ◌++◌, ◌⊎◌, inl, inr,
}
use nomad_tasks.Manager.{Job}
use nomad_tasks.JobBuffer.{
  Event, destroyed, called, Buffers, Op, schedule, take, execute, reset_events, call_events, step,
  run, start,
}

module _ {D : Type 0} where
  -- The delegate is destroyed among the events.
  abbrev pub Destroyed : D → List (Event D) → Type 0
  Destroyed d [] = ⊥
  Destroyed d (destroyed e ∷ es) = (e ≡ d) ⊎ Destroyed d es
  Destroyed d (called e ∷ es) = Destroyed d es

  -- Each call among the events, of which the last stands first, has a destruction of its delegate
  -- before it.
  abbrev pub AllLate : List (Event D) → Type 0
  AllLate [] = Unit {0}
  AllLate (destroyed d ∷ es) = AllLate es
  AllLate (called d ∷ es) = Destroyed d es × AllLate es

  -- The delegate in the buffer has been destroyed.
  abbrev Spent : Option D → List (Event D) → Type 0
  Spent none es = Unit {0}
  Spent (some d) es = Destroyed d es

  record Inv (s : Buffers D) : Type 0 where
    cells : (c : ℕ) → Spent (s.cell c).callback s.events
    workers : (w : ℕ) → Spent (s.worker w).callback s.events
    late : AllLate s.events

  Spent-more : (o : Option D) (e : Event D) (es : List (Event D)) → Spent o es → Spent o (e ∷ es)
  Spent-more none e es h = tt
  Spent-more (some d) (destroyed x) es h = inr h
  Spent-more (some d) (called x) es h = h

  Spent-reset : (o p : Option D) (es : List (Event D)) → Spent o es → Spent o (reset_events p ++ es)
  Spent-reset o none es h = h
  Spent-reset o (some d) es h = Spent-more o (destroyed d) es h

  Spent-call : (o p : Option D) (es : List (Event D)) → Spent o es → Spent o (call_events p ++ es)
  Spent-call o none es h = h
  Spent-call o (some d) es h = Spent-more o (called d) es h

  AllLate-reset : (p : Option D) (es : List (Event D)) → AllLate es → AllLate (reset_events p ++ es)
  AllLate-reset none es h = h
  AllLate-reset (some d) es h = h

  AllLate-call :
      (p : Option D) (es : List (Event D)) → Spent p es → AllLate es → AllLate (call_events p ++ es)
  AllLate-call none es h a = a
  AllLate-call (some d) es h a = (h, a)

  step-Inv : (o : Op D) (s : Buffers D) → Inv s → Inv (step o s)
  unfolding step
  step-Inv (schedule c d n) s v =
      let es = reset_events (s.cell c).callback ++ s.events in
      record {
        cells = λ x.
            update_case (λ (j : Job D). Spent j.callback (destroyed d ∷ es)) s.cell c x _
              (λ e. inl refl)
              (λ e.
                Spent-more (s.cell x).callback (destroyed d) es
                  (Spent-reset (s.cell x).callback (s.cell c).callback s.events (v.cells x)));
        workers = λ w.
            Spent-more (s.worker w).callback (destroyed d) es
              (Spent-reset (s.worker w).callback (s.cell c).callback s.events (v.workers w));
        late = AllLate-reset (s.cell c).callback s.events v.late;
      }
  step-Inv (take w c) s v =
      let p = (s.worker w).callback in
      record {
        cells = λ x. Spent-reset (s.cell x).callback p s.events (v.cells x);
        workers = λ x.
            update_case (λ (j : Job D). Spent j.callback (reset_events p ++ s.events)) s.worker w x
              _ (λ e. Spent-reset (s.cell c).callback p s.events (v.cells c))
              (λ e. Spent-reset (s.worker x).callback p s.events (v.workers x));
        late = AllLate-reset p s.events v.late;
      }
  step-Inv (execute w) s v =
      let p = (s.worker w).callback in
      record {
        cells = λ x. Spent-call (s.cell x).callback p s.events (v.cells x);
        workers = λ x. Spent-call (s.worker x).callback p s.events (v.workers x);
        late = AllLate-call p s.events (v.workers w) v.late;
      }

  run-Inv : (os : List (Op D)) (s : Buffers D) → Inv s → Inv (run os s)
  unfolding run
  run-Inv [] s v = v
  run-Inv (o ∷ os) s v = run-Inv os (step o s) (step-Inv o s v)

  -- Whatever jobs are scheduled with a call, taken and executed, each of these undisturbed: a delegate
  -- is called only after it has been destroyed.
  pub called_late : (os : List (Op D)) → AllLate (run os start).events
  called_late os =
      let v = run-Inv os start (record { cells = λ c. tt; workers = λ w. tt; late = tt }) in v.late
