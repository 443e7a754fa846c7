-- ===== src/Manager/Interleaved/Turns.antt =====
-- What a turn of one thread does to the records of all, as far as their current fibers go.
use nomad_tasks.Prelude.{
  update_case, ℕ, ◌≡◌, ◌≢◌, refl, ◌∙◌, Bool, true, false, Option, none, some, List, update, ◌||◌,
  get_elem?, arith, Bool-cases, inl, inr,
}
use nomad_tasks.Counter.{Ready}
use nomad_tasks.Manager.{Manager, FiberDestination, nowhere, to_waiting, to_pool}
use nomad_tasks.Manager.Fibers.{hand_back, cleanup_previous_fiber}
use nomad_tasks.Manager.Jobs.{take_ready}
use nomad_tasks.Manager.Interleaved.{
  System, Pc, outside, running, parting, entering, Turn, begin, enter, next, wait, goes_on, find,
  wake, current, available, cleans, resume_first, make_ready, turn, step,
}

-- A thread comes to the end of a switch.
abbrev pub is_switch : Pc → Pc → Bool
is_switch entering q = false
is_switch p entering = true
is_switch p q = false

module _ {F : Type 0} where
  hand_back-current :
      (d : FiberDestination) (t u : ℕ) (m : Manager F)
      → ((hand_back d t m).tls u).current_fiber ≡ (m.tls u).current_fiber
  unfolding hand_back
  hand_back-current nowhere t u m = refl
  hand_back-current to_pool t u m =
      update_case (λ x. x.current_fiber ≡ (m.tls u).current_fiber) m.tls t u _ (λ e. rw e refl)
        (λ e. refl)
  hand_back-current to_waiting t u m =
      update_case (λ x. x.current_fiber ≡ (m.tls u).current_fiber) m.tls t u _ (λ e. rw e refl)
        (λ e. refl)

  -- Another thread's place and current fiber.
  abbrev pub Unmoved : ℕ → System F → System F → Type 0
  Unmoved u s s' = (s'.pc u ≡ s.pc u) × (current s' u ≡ current s u)

  abbrev Others : ℕ → System F → System F → Type 0
  Others t s s' = (u : ℕ) → t ≢ u → Unmoved u s s'

  resume-Others :
      (t : ℕ) (o : Option (ℕ × List Ready)) (s : System F) → Others t s (resume_first t o s)
  resume-Others t none s u ne = (refl, refl)
  resume-Others t (some (f, rest)) s u ne = ground arith

  ready-Others : (t i : ℕ) (o : Option Ready) (s : System F) → Others t s (make_ready t i o s)
  ready-Others t i none s u ne = (refl, refl)
  ready-Others t i (some e) s u ne = ground arith

  ready-current :
      (m : Manager F) (w u : ℕ) (ready : List Ready)
      → (update m.tls w (record (m.tls w) { ready_fibers = ready }) u).current_fiber
        ≡ (m.tls u).current_fiber
  ready-current m w u ready =
      update_case (λ x. x.current_fiber ≡ (m.tls u).current_fiber) m.tls w u _ (λ e. rw e refl)
        (λ e. refl)

  turn-Others : (t : ℕ) (a : Turn) (p : Pc) (s : System F) → Others t s (turn t a p s)
  unfolding turn cleanup_previous_fiber
  turn-Others t (begin g) outside s u ne = ground arith
  turn-Others t enter entering s u ne =
      (ground arith, hand_back-current _ (cleans (s.left_at (current s t)) t) u s.shared)
  turn-Others t (next high) running s u ne = elim (Bool-cases ((s.shared.tls t).is_io || high)) [
    | inl stops ↦ rw stops (refl, refl)
    | inr scans ↦
        rw scans (resume-Others t (take_ready s.shared.stored (s.shared.tls t).ready_fibers) s u ne)
  ]
  turn-Others t (goes_on (some (w, i))) running s u ne = (refl, ready-current s.shared w u _)
  turn-Others t wait running s u ne = ground arith
  turn-Others t (find g) parting s u ne = ground arith
  turn-Others t (wake i) running s u ne = ready-Others t i (get_elem? s.slots i) s u ne
  turn-Others t a p s u ne = (refl, refl)

  pub step-Others : (t : ℕ) (a : Turn) (s : System F) → Others t s (step (t, a) s)
  unfolding step
  step-Others t a s = turn-Others t a (s.pc t) s

  -- A thread that has begun, and does not come to the end of a switch, keeps its fiber.
  abbrev Keeps : ℕ → Pc → System F → System F → Type 0
  Keeps t p s s' =
      is_switch p (s'.pc t) ≡ false
      → s'.pc t ≢ outside
      → (p ≢ outside) × (current s' t ≡ current s t)

  resume-Keeps :
      (t : ℕ) (o : Option (ℕ × List Ready)) (s : System F) → Keeps t running s (resume_first t o s)
  resume-Keeps t none s a b = ((λ x. cc), refl)
  resume-Keeps t (some (f, rest)) s a b = absurd (ground arith)

  ready-Keeps : (t i : ℕ) (o : Option Ready) (s : System F) → Keeps t running s (make_ready t i o s)
  ready-Keeps t i none s a b = ((λ x. cc), refl)
  ready-Keeps t i (some e) s a b = ((λ x. cc), ground arith)

  turn-Keeps : (t : ℕ) (a : Turn) (p : Pc) (s : System F) → s.pc t ≡ p → Keeps t p s (turn t a p s)
  unfolding turn cleanup_previous_fiber
  turn-Keeps t (begin g) outside s at a b = absurd (ground arith)
  turn-Keeps t enter entering s at a b =
      ((λ x. cc), hand_back-current _ (cleans (s.left_at (current s t)) t) t s.shared)
  turn-Keeps t (next high) running s at a b = elim (Bool-cases ((s.shared.tls t).is_io || high)) [
    | inl stops ↦ rw stops ((λ x. cc), refl)
    | inr scans ↦ rw scans (
        resume-Keeps t (take_ready s.shared.stored (s.shared.tls t).ready_fibers) s (rw scans at a)
          (rw scans at b))
  ]
  turn-Keeps t (goes_on (some (w, i))) running s at a b = ((λ x. cc), ready-current s.shared w t _)
  turn-Keeps t wait running s at a b = ((λ x. cc), ground arith)
  turn-Keeps t (find g) parting s at a b = elim (Bool-cases (available s g)) [
    | inl free ↦ absurd (ground arith)
    | inr busy ↦ rw busy ((λ x. cc), refl)
  ]
  turn-Keeps t (wake i) running s at a b = ready-Keeps t i (get_elem? s.slots i) s a b
  turn-Keeps t x p s at a b = ((λ e. b (at ∙ e)), refl)

  pub step-Keeps : (t : ℕ) (a : Turn) (s : System F) → Keeps t (s.pc t) s (step (t, a) s)
  unfolding step
  step-Keeps t a s = turn-Keeps t a (s.pc t) s refl
