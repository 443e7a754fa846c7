-- ===== src/Manager/Interleaved/Frame.antt =====
-- What a place says stays true of a fiber, and of a thread, that a step does not touch.
use nomad_tasks.Prelude.{ℕ, ◌≤◌, ◌<◌, ◌≡◌, ◌≢◌, ◌⊎◌, inl, inr, refl, sym, ◌∙◌, true, some, arith}
use nomad_tasks.Manager.{Tls, FiberDestination, nowhere, to_waiting, to_pool}
use nomad_tasks.Manager.Interleaved.{System, Pc, outside, running, parting, entering, current}
use nomad_tasks.Manager.Interleaved.Places.{
  Place, pooled, runs, parts, left_pool, left_wait, asleep, flag_of, Of, Ghost, Left, ThreadFits,
  FiberFits,
}

-- The place says something of the record of thread `t`.
abbrev pub Tied : ℕ → Place → Type 0
Tied t (parts u k) = t ≡ u
Tied t (left_pool u) = t ≡ u
Tied t (left_wait u k) = t ≡ u
Tied t _ = ⊥

pub Of-same : (t u : ℕ) (p : Place) → Of t p → Of u p → t ≡ u
Of-same t u (runs w) a b = a ∙ sym b
Of-same t u (parts w k) a b = a ∙ sym b
Of-same t u (left_pool w) a b = a ∙ sym b
Of-same t u (left_wait w k) a b = a ∙ sym b
Of-same t u p a b = absurd (ground arith)

module _ {F : Type 0} where
  -- What places say of a thread's record is the same.
  abbrev pub Alike : System F → System F → ℕ → Type 0
  Alike s s' u =
      (s'.pc u ≡ s.pc u)
      × (current s' u ≡ current s u)
      × ((s'.shared.tls u).previous_fiber ≡ (s.shared.tls u).previous_fiber)
      × ((s'.shared.tls u).previous_destination ≡ (s.shared.tls u).previous_destination)

  abbrev pub FlagsKept : Ghost → Ghost → System F → System F → ℕ → Type 0
  FlagsKept v v' s s' g =
      (k : ℕ)
      → k < s.shared.next_stored
      → v.whose k ≡ g
      → (s'.shared.stored k ≡ s.shared.stored k) × (v'.whose k ≡ v.whose k)

  pub fiber_frame :
      (v v' : Ghost) (s s' : System F) (g : ℕ) (p : Place)
      → s'.shared.idle_fibers g ≡ s.shared.idle_fibers g
      → FlagsKept v v' s s' g
      → s.shared.next_stored ≤ s'.shared.next_stored
      → ((u : ℕ) → Tied u p → Alike s s' u)
      → FiberFits v s g p
      → FiberFits v' s' g p
  fiber_frame v v' s s' g pooled i fl le al h = i ∙ h
  fiber_frame v v' s s' g (runs t) i fl le al h = i ∙ h
  fiber_frame v v' s s' g (parts t k) i fl le al (a, b, c, d, e, f) =
      let (x, y) = fl k c d in
      let (w, z, _, _) = al t refl in (i ∙ a, x ∙ b, omega arith, y ∙ d, w ∙ e, z ∙ f)
  fiber_frame v v' s s' g (left_pool t) i fl le al (a, e, f, h) =
      let (w, _, x, y) = al t refl in (i ∙ a, w ∙ e, x ∙ f, y ∙ h)
  fiber_frame v v' s s' g (left_wait t k) i fl le al (a, b, c, d, e, f, h) =
      let (x, y) = fl k c d in
      let (w, _, q, z) = al t refl in (i ∙ a, x ∙ b, omega arith, y ∙ d, w ∙ e, q ∙ f, z ∙ h)
  fiber_frame v v' s s' g (asleep k) i fl le al (a, b, c, d) =
      let (x, y) = fl k c d in (i ∙ a, x ∙ b, omega arith, y ∙ d)

  -- Where a thread stands to which a place is tied.
  pub Tied-cases :
      (v : Ghost) (s : System F) (g t : ℕ) (p : Place)
      → FiberFits v s g p
      → Tied t p
      → ((s.pc t ≡ parting) × (current s t ≡ g))
        ⊎ ((s.pc t ≡ entering)
            × ((s.shared.tls t).previous_fiber ≡ g)
            × ((s.shared.tls t).previous_destination ≢ nowhere))
  Tied-cases v s g t (parts u k) (a, b, c, d, e, f) tie = rw tie (inl (e, f))
  Tied-cases v s g t (left_pool u) (a, e, f, h) tie =
      rw tie (inr (e, f, λ x. let y = sym h ∙ x in cc))
  Tied-cases v s g t (left_wait u k) (a, b, c, d, e, f, h) tie =
      rw tie (inr (e, f, λ x. let y = sym h ∙ x in cc))
  Tied-cases v s g t p h tie = absurd (ground arith)

  -- A thread to which no place is tied.
  pub loose_at :
      (v : Ghost) (s : System F) (g t : ℕ) (p : Place)
      → s.pc t ≢ parting
      → s.pc t ≢ entering
      → FiberFits v s g p
      → Tied t p
      → ⊥
  loose_at v s g t p a b h tie = elim (Tied-cases v s g t p h tie) [ inl x ↦ a x.0 | inr x ↦ b x.0 ]

  pub loose_parting :
      (v : Ghost) (s : System F) (g t : ℕ) (p : Place)
      → s.pc t ≡ parting
      → current s t ≢ g
      → FiberFits v s g p
      → Tied t p
      → ⊥
  loose_parting v s g t p a ne h tie = elim (Tied-cases v s g t p h tie) [
    | inl x ↦ ne x.1
    | inr x ↦ let y = sym a ∙ x.0 in cc
  ]

  pub loose_entering :
      (v : Ghost) (s : System F) (g t : ℕ) (p : Place)
      → s.pc t ≡ entering
      → (s.shared.tls t).previous_fiber ≢ g
      → FiberFits v s g p
      → Tied t p
      → ⊥
  loose_entering v s g t p a ne h tie = elim (Tied-cases v s g t p h tie) [
    | inl x ↦ let y = sym a ∙ x.0 in cc
    | inr x ↦ ne x.1
  ]

  pub loose_nowhere :
      (v : Ghost) (s : System F) (g t : ℕ) (p : Place)
      → s.pc t ≡ entering
      → (s.shared.tls t).previous_destination ≡ nowhere
      → FiberFits v s g p
      → Tied t p
      → ⊥
  loose_nowhere v s g t p a e h tie = elim (Tied-cases v s g t p h tie) [
    | inl x ↦ let y = sym a ∙ x.0 in cc
    | inr x ↦ x.2 e
  ]

  pub idle-pooled :
      (v : Ghost) (s : System F) (g : ℕ) (p : Place)
      → FiberFits v s g p
      → s.shared.idle_fibers g ≡ true
      → p ≡ pooled
  idle-pooled v s g pooled h e = refl
  idle-pooled v s g p h e = absurd (ground arith)

  pub flagged-asleep :
      (v : Ghost) (s : System F) (g k : ℕ) (p : Place)
      → FiberFits v s g p
      → flag_of p ≡ some k
      → s.shared.stored k ≡ true
      → p ≡ asleep k
  flagged-asleep v s g k (asleep j) h e y = ground arith
  flagged-asleep v s g k p h e y = absurd (ground arith)

Left-thread_frame :
    (v v' : Ghost) (u : ℕ) (l : Tls) (d : FiberDestination)
    → ((g : ℕ) → Of u (v.place g) → v'.place g ≡ v.place g)
    → Left v u l d
    → Left v' u l d
Left-thread_frame v v' u l nowhere keep h = h
Left-thread_frame v v' u l to_pool keep h = keep l.previous_fiber (rw h refl) ∙ h
Left-thread_frame v v' u l to_waiting keep h = keep l.previous_fiber (rw h refl) ∙ h

pub thread_frame :
    (v v' : Ghost) (u : ℕ) (l : Tls) (p : Pc)
    → ((g : ℕ) → Of u (v.place g) → v'.place g ≡ v.place g)
    → ThreadFits v u l p
    → ThreadFits v' u l p
thread_frame v v' u l outside keep h = h
thread_frame v v' u l running keep h = keep l.current_fiber (rw h refl) ∙ h
thread_frame v v' u l parting keep (a, b, c) = (keep l.current_fiber (rw a refl) ∙ a, b, c)
thread_frame v v' u l entering keep (a, b) =
    (keep l.current_fiber (rw a refl) ∙ a, Left-thread_frame v v' u l l.previous_destination keep b)
