-- ===== src/Manager/Interleaved/Steps.antt =====
-- What a step of one thread leaves to the others.
use nomad_tasks.Prelude.{
  ℕ, ◌≤◌, ◌≡◌, ◌≢◌, refl, ap, ◌∙◌, arith, Bool-cases, inl, inr, update, ◌==◌, ==→eq, update_case,
}
use nomad_tasks.Manager.{Tls}
use nomad_tasks.Manager.Interleaved.{System, Pc}
use nomad_tasks.Manager.Interleaved.Places.{
  Place, Of, with_thread, Ghost, ThreadFits, FiberFits, Entries,
}
use nomad_tasks.Manager.Interleaved.Frame.{Tied, Alike, FlagsKept, fiber_frame}

-- A fiber gets a place.
abbrev pub put : ℕ → Place → Ghost → Ghost
put f p v = record v { place = update v.place f p }

pub put-keeps :
    (v : Ghost) (f u : ℕ) (p : Place)
    → (Of u (v.place f) → ⊥)
    → (g : ℕ) → Of u (v.place g)
    → (put f p v).place g ≡ v.place g
put-keeps v f u p n g o =
    update_case (λ x. x ≡ v.place g) v.place f g p (λ e. absurd (n (rw e o))) (λ ne. refl)

pub puts-keep :
    (v : Ghost) (f c u : ℕ) (p q : Place)
    → (Of u (v.place f) → ⊥)
    → (Of u (v.place c) → ⊥)
    → (g : ℕ) → Of u (v.place g)
    → (put f p (put c q v)).place g ≡ v.place g
puts-keep v f c u p q n m g o =
    update_case (λ x. x ≡ v.place g) (put c q v).place f g p (λ e. absurd (n (rw e o)))
      (λ ne. put-keeps v c u q m g o)

pub threads_after :
    (v : Ghost) (tls : ℕ → Tls) (pc : ℕ → Pc) (t : ℕ) (l : Tls) (p : Pc)
    → ThreadFits v t l p
    → ((u : ℕ) → t ≢ u → ThreadFits v u (tls u) (pc u))
    → (u : ℕ) → ThreadFits v u (update tls t l u) (update pc t p u)
threads_after v tls pc t l p h others u = elim (Bool-cases (t == u)) [
  | inl e ↦ let same = ==→eq t u e in rw e (rw same at h)
  | inr e ↦ rw e (others u (ground arith))
]

-- The ready lists, where that of thread `t` is set.
pub readied_after :
    (v v' : Ghost) (tls : ℕ → Tls) (t : ℕ) (l : Tls)
    → Entries v' (with_thread t) l.ready_fibers
    → ((u : ℕ) → t ≢ u → Entries v' (with_thread u) (tls u).ready_fibers)
    → (u : ℕ) → Entries v' (with_thread u) (update tls t l u).ready_fibers
readied_after v v' tls t l h others u =
    update_case (λ x. Entries v' (with_thread u) x.ready_fibers) tls t u l (λ e. rw (← e) h)
      (others u)

module _ {F : Type 0} (v v' : Ghost) (s s' : System F) (t : ℕ) (l : Tls) (p : Pc) where
  Alike-other :
      s'.shared.tls ≡ update s.shared.tls t l
      → s'.pc ≡ update s.pc t p
      → (u : ℕ) → t ≢ u
      → Alike s s' u
  Alike-other a b u ne =
      let x : s'.shared.tls u ≡ s.shared.tls u =
        ap (λ h. h u) a
        ∙ update_case (λ x. x ≡ s.shared.tls u) s.shared.tls t u l (λ e. absurd (ne e))
            (λ n. refl) in
      let y : s'.pc u ≡ s.pc u =
        ap (λ h. h u) b
        ∙ update_case (λ x. x ≡ s.pc u) s.pc t u p (λ e. absurd (ne e)) (λ n. refl) in
      (
        y,
        ap (λ z. z.current_fiber) x,
        ap (λ z. z.previous_fiber) x,
        ap (λ z. z.previous_destination) x,
      )

  -- A fiber that the step does not touch.
  pub other_fiber :
      s'.shared.tls ≡ update s.shared.tls t l
      → s'.pc ≡ update s.pc t p
      → (g : ℕ) → s'.shared.idle_fibers g ≡ s.shared.idle_fibers g
      → FlagsKept v v' s s' g
      → s.shared.next_stored ≤ s'.shared.next_stored
      → (Tied t (v.place g) → ⊥)
      → FiberFits v s g (v.place g)
      → FiberFits v' s' g (v.place g)
  other_fiber a b g i fl le loose h =
      fiber_frame v v' s s' g (v.place g) i fl le
        (λ u tie. Alike-other a b u (λ e. loose (rw e tie))) h
