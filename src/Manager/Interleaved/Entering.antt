-- ===== src/Manager/Interleaved/Entering.antt =====
-- The end of a switch, where `CleanupPreviousFiber` hands back the fiber that the thread has left.
use nomad_tasks.Prelude.{
  update_case, ℕ, ◌≡◌, ◌≢◌, refl, sym, ap, ◌∙◌, Bool, true, arith, update, update_self,
}
use nomad_tasks.Manager.{Tls, FiberDestination, nowhere, to_waiting, to_pool, cleanup, set_tls}
use nomad_tasks.Manager.Fibers.{hand_back, cleanup_previous_fiber}
use nomad_tasks.Manager.Interleaved.{System, running, entering, current, move}
use nomad_tasks.Manager.Interleaved.Places.{
  Place, pooled, runs, left_pool, left_wait, asleep, flag_of, Of, in_slot, with_thread, Ghost,
  ThreadFits, FiberFits, Inv, Kept,
}
use nomad_tasks.Manager.Interleaved.Entries.{SameEntry, Entries-same}
use nomad_tasks.Manager.Interleaved.Frame.{
  Of-same, FlagsKept, loose_entering, loose_nowhere, fiber_frame, thread_frame,
}
use nomad_tasks.Manager.Interleaved.Steps.{
  put, put-keeps, threads_after, readied_after, other_fiber,
}

module _ {F : Type 0} (v : Ghost) (s : System F) (t : ℕ) where
  abbrev left : ℕ
  left = (s.shared.tls t).previous_fiber

  abbrev cleaned : Tls
  cleaned = cleanup (s.shared.tls t)

  abbrev pub entered : FiberDestination → System F
  unfolding hand_back
  entered d = move t running (hand_back d t s.shared) s

  put-same :
      (p : Place) → flag_of (v.place left) ≡ flag_of p → (h : ℕ) → SameEntry v (put left p v) h
  put-same p e h = (
    update_case (λ x. flag_of x ≡ flag_of (v.place h)) v.place left h p (λ q. rw (← q) (sym e))
        (λ q. refl),
    refl,
  )

  enter_nowhere :
      Inv v s
      → s.pc t ≡ entering
      → (s.shared.tls t).previous_destination ≡ nowhere
      → Inv v (entered nowhere)
  unfolding hand_back
  enter_nowhere iv at e = record {
    threads = λ u.
        update_case (λ x. ThreadFits v u (s.shared.tls u) x) s.pc t u running
          (λ q. let f = iv.threads t in rw (← q) ((rw at at f).0)) (λ q. iv.threads u);
    fibers = λ h.
        fiber_frame v v s (entered nowhere) h (v.place h) refl (λ k lt w. (refl, refl))
          (omega arith)
          (λ u tie. (
            update_case (λ x. x ≡ s.pc u) s.pc t u running
                (λ q. absurd (loose_nowhere v s h t (v.place h) at e (iv.fibers h) (rw q tie)))
                (λ q. refl),
            refl,
            refl,
            refl,
          ))
          (iv.fibers h);
    slotted = iv.slotted;
    readied = iv.readied;
  }

  -- The thread hands `left` back, with the pool and the flags then as given.
  abbrev gives : (ℕ → Bool) → (ℕ → Bool) → System F
  gives idle stored =
      move t running (set_tls t cleaned (record s.shared { idle_fibers = idle; stored = stored })) s

  gives-Inv :
      (idle stored : ℕ → Bool) (p : Place)
      → Inv v s
      → s.pc t ≡ entering
      → Of t (v.place left)
      → v.place left ≢ runs t
      → flag_of (v.place left) ≡ flag_of p
      → FiberFits (put left p v) (gives idle stored) left p
      → ((h : ℕ) → left ≢ h → idle h ≡ s.shared.idle_fibers h)
      → ((h : ℕ) → left ≢ h → FlagsKept v (put left p v) s (gives idle stored) h)
      → Inv (put left p v) (gives idle stored)
  gives-Inv idle stored p iv at own ne flag mine idle_kept flags_kept =
      let v' = put left p v in
      let s' = gives idle stored in
      let (cur, _) : ThreadFits v t (s.shared.tls t) entering =
        let f = iv.threads t in rw at at f in
      let cur' : v'.place (current s t) ≡ runs t =
        update_case (λ x. x ≡ runs t) v.place left (current s t) p
          (λ q. absurd (ne (ap v.place q ∙ cur))) (λ q. cur) in
      record {
        threads = threads_after v' s.shared.tls s.pc t cleaned running cur' (λ u q.
            thread_frame v v' u (s.shared.tls u) (s.pc u)
              (put-keeps v left u p (λ o. q (Of-same t u (v.place left) own o))) (iv.threads u));
        fibers = λ h.
            update_case (λ x. FiberFits v' s' h x) v.place left h p (λ q. rw (← q) mine)
              (λ q.
                other_fiber v v' s s' t cleaned running refl refl h (idle_kept h q) (flags_kept h q)
                  (omega arith) (loose_entering v s h t (v.place h) at q (iv.fibers h))
                  (iv.fibers h));
        slotted = Entries-same v v' in_slot s.slots (put-same p flag) iv.slotted;
        readied =
            readied_after v v' s.shared.tls t cleaned
              (Entries-same v v' (with_thread t) (s.shared.tls t).ready_fibers (put-same p flag)
                (iv.readied t))
              (λ u ne.
                Entries-same v v' (with_thread u) (s.shared.tls u).ready_fibers (put-same p flag)
                  (iv.readied u));
      }

  enter_to_pool :
      Inv v s
      → s.pc t ≡ entering
      → (s.shared.tls t).previous_destination ≡ to_pool
      → Inv (put left pooled v) (entered to_pool)
  unfolding hand_back
  enter_to_pool iv at e =
      let (_, l) : ThreadFits v t (s.shared.tls t) entering = let f = iv.threads t in rw at at f in
      let place : v.place left ≡ left_pool t = rw e at l in
      gives-Inv (update s.shared.idle_fibers left true) s.shared.stored pooled iv at (rw place refl)
        (λ x. let y = sym place ∙ x in cc) (rw place refl)
        (update_self s.shared.idle_fibers left true) (λ h q. ground arith)
        (λ h q k lt w. (refl, refl))

  abbrev flag : ℕ
  flag = (s.shared.tls t).previous_stored

  enter_to_waiting :
      Inv v s
      → s.pc t ≡ entering
      → (s.shared.tls t).previous_destination ≡ to_waiting
      → Inv (put left (asleep flag) v) (entered to_waiting)
  unfolding hand_back
  enter_to_waiting iv at e =
      let (_, l) : ThreadFits v t (s.shared.tls t) entering = let f = iv.threads t in rw at at f in
      let place : v.place left ≡ left_wait t flag = rw e at l in
      let (a, b, c, d, _, _, _) : FiberFits v s left (left_wait t flag) =
        let f = iv.fibers left in rw place at f in
      gives-Inv s.shared.idle_fibers (update s.shared.stored flag true) (asleep flag) iv at
        (rw place refl) (λ x. let y = sym place ∙ x in cc) (rw place refl)
        (a, update_self s.shared.stored flag true, c, d) (λ h q. refl)
        (λ h q k lt w. (
          update_case (λ x. x ≡ s.shared.stored k) s.shared.stored flag k true
              (λ x. absurd (q (sym d ∙ ap v.whose x ∙ w))) (λ x. refl),
          refl,
        ))

  enter_by :
      (d : FiberDestination)
      → Inv v s
      → s.pc t ≡ entering
      → (s.shared.tls t).previous_destination ≡ d
      → Kept (entered d)
  enter_by nowhere iv at e = (v, enter_nowhere iv at e)
  enter_by to_pool iv at e = (put left pooled v, enter_to_pool iv at e)
  enter_by to_waiting iv at e = (put left (asleep flag) v, enter_to_waiting iv at e)

  pub enter-Kept :
      Inv v s → s.pc t ≡ entering → Kept (move t running (cleanup_previous_fiber t s.shared) s)
  unfolding cleanup_previous_fiber
  enter-Kept iv at = enter_by (s.shared.tls t).previous_destination iv at refl
