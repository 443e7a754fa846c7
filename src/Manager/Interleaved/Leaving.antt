-- ===== src/Manager/Interleaved/Leaving.antt =====
-- `GetNextJob` leaves its fiber to the pool for the first ready fiber that has been left.
use nomad_tasks.Prelude.{
  update_case, ℕ, ◌≡◌, ◌≢◌, refl, sym, ap, ◌∙◌, Option, some, none, List, arith, update_self,
  ==-refl,
}
use nomad_tasks.Counter.{Ready}
use nomad_tasks.Manager.{Tls}
use nomad_tasks.Manager.Jobs.{take_ready, resuming}
use nomad_tasks.Manager.Interleaved.{System, running, entering, resume_first}
use nomad_tasks.Manager.Interleaved.Places.{
  runs, left_pool, asleep, flag_of, in_slot, with_thread, Ghost, FiberFits, Inv, Kept,
}
use nomad_tasks.Manager.Interleaved.Entries.{
  SameEntry, Entries-except, Entries-elsewhere, Taken, Entries-take_ready,
}
use nomad_tasks.Manager.Interleaved.Frame.{flagged-asleep, loose_at, thread_frame}
use nomad_tasks.Manager.Interleaved.Steps.{
  put, puts-keep, threads_after, readied_after, other_fiber,
}

module _ {F : Type 0} (v : Ghost) (s : System F) (t f : ℕ) (rest : List Ready) where
  abbrev mine : Tls
  mine = s.shared.tls t

  abbrev left : ℕ
  left = mine.current_fiber

  abbrev once_resumed : Ghost
  once_resumed = put f (runs t) (put left (left_pool t) v)

  abbrev resumed : System F
  resumed = resume_first t (some (f, rest)) s

  same_entry : v.place left ≡ runs t → (g : ℕ) → f ≢ g → SameEntry v once_resumed g
  same_entry c g ne = (
    update_case (λ x. flag_of x ≡ flag_of (v.place g)) (put left (left_pool t) v).place f g (runs t)
        (λ q. absurd (ne q))
        (λ q.
          update_case (λ x. flag_of x ≡ flag_of (v.place g)) v.place left g (left_pool t)
            (λ q'. rw (← q', c) refl) (λ q'. refl)),
    refl,
  )

  resume-Inv :
      Inv v s
      → s.pc t ≡ running
      → Taken v (with_thread t) s.shared.stored mine.ready_fibers f rest
      → Inv once_resumed resumed
  resume-Inv iv at (_, k, a, b, set, no_more, keep) =
      let v' = once_resumed in
      let c : v.place left ≡ runs t = let x = iv.threads t in rw at at x in
      let e : v.place f ≡ asleep k = flagged-asleep v s f k (v.place f) (iv.fibers f) a set in
      let apart : f ≢ left = λ q. let x = sym e ∙ ap v.place q ∙ c in cc in
      let (f_taken, _, _, _) : FiberFits v s f (asleep k) = let x = iv.fibers f in rw e at x in
      let left_taken : FiberFits v s left (runs t) = let x = iv.fibers left in rw c at x in
      let place : v'.place f ≡ runs t = update_self (put left (left_pool t) v).place f (runs t) in
      let place' : v'.place left ≡ left_pool t =
        update_case (λ x. x ≡ left_pool t) (put left (left_pool t) v).place f left (runs t)
          (λ q. absurd (apart q)) (λ q. update_self v.place left (left_pool t)) in
      record {
        threads =
            threads_after v' s.shared.tls s.pc t (resuming f rest mine) entering (place, place')
              (λ u ne.
                thread_frame v v' u (s.shared.tls u) (s.pc u)
                  (puts-keep v f left u (runs t) (left_pool t) (λ o. rw e at o)
                    (λ o. let x = rw c at o in ne (sym x)))
                  (iv.threads u));
        fibers = λ h.
            update_case (λ x. FiberFits v' resumed h x) (put left (left_pool t) v).place f h
              (runs t) (λ q. rw (← q) f_taken)
              (λ q.
                update_case (λ x. FiberFits v' resumed h x) v.place left h (left_pool t)
                  (λ q'. rw (← q', ==-refl t) (left_taken, refl, refl, refl))
                  (λ q'.
                    other_fiber v v' s resumed t (resuming f rest mine) entering refl refl h refl
                      (λ k lt w. (refl, refl)) (omega arith)
                      (loose_at v s h t (v.place h) (λ x. cc) (λ x. cc) (iv.fibers h))
                      (iv.fibers h)));
        slotted =
            Entries-except v v' in_slot f s.slots (same_entry c)
              (Entries-elsewhere v in_slot f s.slots (λ x. let y = sym b ∙ x in cc) iv.slotted)
              iv.slotted;
        readied =
            readied_after v v' s.shared.tls t (resuming f rest mine)
              (Entries-except v v' (with_thread t) f rest (same_entry c) no_more keep)
              (λ u ne.
                Entries-except v v' (with_thread u) f (s.shared.tls u).ready_fibers (same_entry c)
                  (Entries-elsewhere v (with_thread u) f (s.shared.tls u).ready_fibers
                    (λ x. ne (let y = sym b ∙ x in cc)) (iv.readied u))
                  (iv.readied u));
      }

module _ {F : Type 0} (v : Ghost) (s : System F) (t : ℕ) where
  next_by :
      (o : Option (ℕ × List Ready))
      → take_ready s.shared.stored (s.shared.tls t).ready_fibers ≡ o
      → Inv v s
      → s.pc t ≡ running
      → Kept (resume_first t o s)
  next_by none e iv at = (v, iv)
  next_by (some (f, rest)) e iv at = (
    once_resumed v s t f rest,
    resume-Inv v s t f rest iv at (
        Entries-take_ready v (with_thread t) s.shared.stored (s.shared.tls t).ready_fibers f rest
          (iv.readied t) e),
  )

  pub next-Kept :
      Inv v s
      → s.pc t ≡ running
      → Kept (resume_first t (take_ready s.shared.stored (s.shared.tls t).ready_fibers) s)
  next-Kept iv at = next_by (take_ready s.shared.stored (s.shared.tls t).ready_fibers) refl iv at
