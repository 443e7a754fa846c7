-- ===== src/Manager/Interleaved/Ownership.antt =====
-- No fiber is on two threads, and every ready fiber is left.
use nomad_tasks.Prelude.{
  ℕ, ◌≡◌, ◌≢◌, refl, ap, ◌∙◌, true, false, ◌||◌, some, List, [], ◌∷◌, arith, Bool-cases, inl, inr,
  update_self,
}
use nomad_tasks.Counter.{Ready}
use nomad_tasks.Manager.{Manager, Tls, nowhere}
use nomad_tasks.Manager.Jobs.{take_ready, resuming}
use nomad_tasks.Manager.Interleaved.{
  System, Pc, outside, running, parting, entering, Turn, begin, enter, next, wait, goes_on, find,
  wake, current, available, turn, step, run, start, AtHome, Homebound,
}
use nomad_tasks.Manager.Interleaved.Places.{
  Of, Place, pooled, runs, parts, left_pool, left_wait, asleep, flag_of, in_slot, with_thread,
  Ghost, ThreadFits, FiberFits, Entries, Inv, Kept,
}
use nomad_tasks.Manager.Interleaved.Frame.{Of-same}
use nomad_tasks.Manager.Interleaved.Taking.{begin-Inv, find-Inv}
use nomad_tasks.Manager.Interleaved.Entering.{enter-Kept}
use nomad_tasks.Manager.Interleaved.Leaving.{next-Kept}
use nomad_tasks.Manager.Interleaved.Waiting.{wait-Inv, wake-Kept}

abbrev pub first : Ghost
first = record { place = λ f. pooled; spot = λ f. in_slot; whose = λ k. k }

has_current :
    (v : Ghost) (t : ℕ) (l : Tls) (p : Pc)
    → p ≢ outside
    → ThreadFits v t l p
    → Of t (v.place l.current_fiber)
has_current v t l outside ne h = absurd (ne refl)
has_current v t l running ne h = rw h refl
has_current v t l parting ne h = rw h.0 refl
has_current v t l entering ne h = rw h.0 refl

module _ {F : Type 0} where
  turn-Kept :
      (v : Ghost) (s : System F) (t : ℕ) (a : Turn) (p : Pc)
      → Inv v s
      → s.pc t ≡ p
      → AtHome (t, a) s
      → Kept (turn t a p s)
  unfolding turn
  turn-Kept v s t (begin g) outside iv at home = elim (Bool-cases (available s g)) [
    | inl free ↦ rw free (_, begin-Inv v s t g iv at (ground arith))
    | inr busy ↦ rw busy (v, iv)
  ]
  turn-Kept v s t enter entering iv at home = rw home (enter-Kept v s t iv at)
  turn-Kept v s t (next high) running iv at home =
      elim (Bool-cases ((s.shared.tls t).is_io || high)) [
        | inl stops ↦ rw stops (v, iv)
        | inr scans ↦ rw scans (next-Kept v s t iv at)
      ]
  turn-Kept v s t (goes_on (some x)) running iv at home = absurd home
  turn-Kept v s t wait running iv at home = (_, wait-Inv v s t iv at)
  turn-Kept v s t (find g) parting iv at home = elim (Bool-cases (available s g)) [
    | inl free ↦ rw free (_, find-Inv v s t g iv at (ground arith))
    | inr busy ↦ rw busy (v, iv)
  ]
  turn-Kept v s t (wake i) running iv at home = wake-Kept v s t i iv at
  turn-Kept v s t a p iv at home = (v, iv)

  pub step-Kept : (e : ℕ × Turn) (s : System F) → Kept s → AtHome e s → Kept (step e s)
  unfolding step
  step-Kept (t, a) s (v, iv) home = turn-Kept v s t a (s.pc t) iv refl home

  run-Kept : (es : List (ℕ × Turn)) (s : System F) → Kept s → Homebound es s → Kept (run es s)
  unfolding run
  run-Kept [] s k h = k
  run-Kept (e ∷ es) s k (a, h) = run-Kept es (step e s) (step-Kept e s k a) h

  -- No thread of the manager has left a fiber or has one to resume, and all fibers are idle.
  pub record New (m : Manager F) : Type 0 where
    pub nothing_left : (t : ℕ) → (m.tls t).previous_destination ≡ nowhere
    pub nothing_ready : (t : ℕ) → (m.tls t).ready_fibers ≡ []
    pub idle : (f : ℕ) → m.idle_fibers f ≡ true

  pub start-Inv : (m : Manager F) → New m → Inv first (start m)
  start-Inv m new = record {
    threads = new.nothing_left;
    fibers = new.idle;
    slotted = tt;
    readied = λ t. rw (new.nothing_ready t) tt;
  }

  taken :
      (v : Ghost) (s : System F) (f t : ℕ) (p : Place)
      → Of t p
      → FiberFits v s f p
      → s.shared.idle_fibers f ≡ false
  taken v s f t (runs u) o h = h
  taken v s f t (parts u k) o h = h.0
  taken v s f t (left_pool u) o h = h.0
  taken v s f t (left_wait u k) o h = h.0
  taken v s f t p o h = absurd o

  -- Two threads that have begun have different fibers.
  pub Kept-apart :
      (s : System F) (t u : ℕ)
      → Kept s
      → t ≢ u
      → s.pc t ≢ outside
      → s.pc u ≢ outside
      → current s t ≢ current s u
  Kept-apart s t u (v, iv) ne a b same =
      let x = has_current v t (s.shared.tls t) (s.pc t) a (iv.threads t) in
      let y = has_current v u (s.shared.tls u) (s.pc u) b (iv.threads u) in
      ne (Of-same t u (v.place (current s t)) x (rw (← same) at y))

  -- The fiber of the entry is not with a thread that is at a switch.
  Settled : System F → ℕ → Type 0
  Settled s f =
      (u : ℕ) → (s.shared.tls u).previous_fiber ≡ f → (s.pc u ≢ parting) × (s.pc u ≢ entering)

  flagged :
      (v : Ghost) (s : System F) (f k : ℕ) (p : Place)
      → Inv v s
      → Settled s f
      → FiberFits v s f p
      → flag_of p ≡ some k
      → s.shared.stored k ≡ true
  unfolding Settled
  flagged v s f k (parts u j) iv settled (_, _, _, _, at, cur) e =
      let (_, same, _) : ThreadFits v u (s.shared.tls u) parting =
        let x = iv.threads u in rw at at x in
      absurd ((settled u (same ∙ cur)).0 at)
  flagged v s f k (left_wait u j) iv settled (_, _, _, _, at, prev, _) e =
      absurd ((settled u prev).1 at)
  flagged v s f k (asleep j) iv settled (_, set, _, _) e =
      let same : j ≡ k = ground arith in rw (← same) set
  flagged v s f k p iv settled h e = absurd (ground arith)

  resumes :
      (v : Ghost) (s : System F) (t f k : ℕ) (rest : List Ready)
      → Inv v s
      → Settled s f
      → s.pc t ≡ running
      → (s.shared.tls t).is_io ≡ false
      → (s.shared.tls t).ready_fibers ≡ (f, k) ∷ rest
      → current (step (t, next false) s) t ≡ f
  unfolding step turn take_ready
  resumes v s t f k rest iv settled at worker ready =
      let (a, _, _, _) : Entries v (with_thread t) ((f, k) ∷ rest) =
        let x = iv.readied t in rw ready at x in
      let set = flagged v s f k (v.place f) iv settled (iv.fibers f) a in
      rw (at, worker, ready, set)
        (ap (λ x. x.current_fiber) (update_self s.shared.tls t (resuming f rest (s.shared.tls t))))

module _ {F : Type 0} (m : Manager F) (new : New m) (es : List (ℕ × Turn))
    (home : Homebound es (start m)) where
  abbrev end : System F
  end = run es (start m)

  end-Kept : Kept end
  end-Kept = run-Kept es (start m) (first, start-Inv m new) home

  -- On a new manager, all of whose fibers are idle and whose threads have left none, and under a
  -- schedule in which a fiber that was left in `GetNextJob` is entered again by the thread that left it,
  -- and no fiber for which `AddWaitingFiber` gives back true is made ready as well, two threads that have
  -- begun never have the same current fiber, and a current fiber is not idle, so that no thread can find
  -- it.
  pub one_thread :
      (t u : ℕ)
      → t ≢ u
      → end.pc t ≢ outside
      → end.pc u ≢ outside
      → (current end t ≢ current end u) × (end.shared.idle_fibers (current end t) ≡ false)
  one_thread t u ne a b =
      let (v, iv) = end-Kept in
      let x = has_current v t (end.shared.tls t) (end.pc t) a (iv.threads t) in
      (
        Kept-apart end t u end-Kept ne a b,
        taken v end (current end t) t (v.place (current end t)) x (iv.fibers (current end t)),
      )

  -- On a new manager, all of whose fibers are idle and whose threads have left none, and under a
  -- schedule in which a fiber that was left in `GetNextJob` is entered again by the thread that left it,
  -- and no fiber for which `AddWaitingFiber` gives back true is made ready as well: the first fiber that
  -- is ready on a thread in its loop, which is not for input and output, is the thread's current fiber
  -- after its next `GetNextJob` that finds no job of high priority, unless a thread that last left the
  -- fiber is at a switch.
  pub ready_resumed :
      (t f k : ℕ) (rest : List Ready)
      → end.pc t ≡ running
      → (end.shared.tls t).is_io ≡ false
      → (end.shared.tls t).ready_fibers ≡ (f, k) ∷ rest
      → ((u : ℕ)
          → (end.shared.tls u).previous_fiber ≡ f
          → (end.pc u ≢ parting) × (end.pc u ≢ entering))
      → current (step (t, next false) end) t ≡ f
  unfolding Settled
  ready_resumed t f k rest at worker ready settled =
      let (v, iv) = end-Kept in resumes v end t f k rest iv settled at worker ready
