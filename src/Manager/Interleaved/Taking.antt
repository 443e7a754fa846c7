-- ===== src/Manager/Interleaved/Taking.antt =====
-- A thread takes a fiber out of the pool: in `ThreadCallback_Worker`, and at the end of `WaitForCounter`.
use nomad_tasks.Prelude.{
  update_case, ℕ, ◌≡◌, ◌≢◌, refl, sym, ap, ◌∙◌, true, arith, update, update_self, ==-refl,
}
use nomad_tasks.Manager.{Tls, nowhere}
use nomad_tasks.Manager.Interleaved.{
  System, outside, parting, entering, in_wait, current, move, switch_to,
}
use nomad_tasks.Manager.Interleaved.Places.{
  pooled, runs, parts, left_wait, flag_of, in_slot, with_thread, Ghost, ThreadFits, FiberFits, Inv,
}
use nomad_tasks.Manager.Interleaved.Entries.{SameEntry, Entries-same}
use nomad_tasks.Manager.Interleaved.Frame.{loose_at, loose_parting, idle-pooled, thread_frame}
use nomad_tasks.Manager.Interleaved.Steps.{
  put, put-keeps, puts-keep, threads_after, readied_after, other_fiber,
}

module _ {F : Type 0} (v : Ghost) (s : System F) (t g : ℕ) where
  abbrev took : Tls
  took = record (s.shared.tls t) { current_fiber = g }

  abbrev pub begun : System F
  begun = move t entering (switch_to t g s.shared) s

  is_pooled : Inv v s → s.shared.idle_fibers g ≡ true → v.place g ≡ pooled
  is_pooled iv free = idle-pooled v s g (v.place g) (iv.fibers g) free

  put-same : v.place g ≡ pooled → (h : ℕ) → SameEntry v (put g (runs t) v) h
  put-same e h = (
    update_case (λ x. flag_of x ≡ flag_of (v.place h)) v.place g h (runs t) (λ q. rw (← q, e) refl)
        (λ q. refl),
    refl,
  )

  pub begin-Inv :
      Inv v s → s.pc t ≡ outside → s.shared.idle_fibers g ≡ true → Inv (put g (runs t) v) begun
  begin-Inv iv at free =
      let v' = put g (runs t) v in
      let e = is_pooled iv free in
      let here : (s.shared.tls t).previous_destination ≡ nowhere =
        let f = iv.threads t in rw at at f in
      let mine : v'.place g ≡ runs t = update_self v.place g (runs t) in
      record {
        threads =
            threads_after v' s.shared.tls s.pc t took entering (mine, rw here tt)
              (λ u ne.
                thread_frame v v' u (s.shared.tls u) (s.pc u)
                  (put-keeps v g u (runs t) (λ o. rw e at o)) (iv.threads u));
        fibers = λ h.
            update_case (λ x. FiberFits v' begun h x) v.place g h (runs t)
              (λ q. rw (← q, ==-refl g) refl)
              (λ q.
                other_fiber v v' s begun t took entering refl refl h (ground arith)
                  (λ k lt w. (refl, refl)) (omega arith)
                  (loose_at v s h t (v.place h) (λ x. cc) (λ x. cc) (iv.fibers h)) (iv.fibers h));
        slotted = Entries-same v v' in_slot s.slots (put-same e) iv.slotted;
        readied =
            readied_after v v' s.shared.tls t took
              (Entries-same v v' (with_thread t) (s.shared.tls t).ready_fibers (put-same e)
                (iv.readied t))
              (λ u ne.
                Entries-same v v' (with_thread u) (s.shared.tls u).ready_fibers (put-same e)
                  (iv.readied u));
      }

  abbrev parted : ℕ
  parted = current s t

  abbrev its_flag : ℕ
  its_flag = (s.shared.tls t).previous_stored

  abbrev pub found : System F
  found = record (move t entering (switch_to t g s.shared) s) {
    left_at = update s.left_at parted in_wait;
  }

  abbrev after_find : Ghost
  after_find = put g (runs t) (put parted (left_wait t its_flag) v)

  found-same :
      v.place g ≡ pooled → v.place parted ≡ parts t its_flag → (h : ℕ) → SameEntry v after_find h
  found-same e c h = (
    update_case (λ x. flag_of x ≡ flag_of (v.place h)) (put parted (left_wait t its_flag) v).place g
        h (runs t) (λ q. rw (← q, e) refl)
        (λ q.
          update_case (λ x. flag_of x ≡ flag_of (v.place h)) v.place parted h (left_wait t its_flag)
            (λ q. rw (← q, c) refl) (λ q. refl)),
    refl,
  )

  pub find-Inv : Inv v s → s.pc t ≡ parting → s.shared.idle_fibers g ≡ true → Inv after_find found
  find-Inv iv at free =
      let v' = after_find in
      let e = is_pooled iv free in
      let (c, same, dest) : ThreadFits v t (s.shared.tls t) parting =
        let f = iv.threads t in rw at at f in
      let apart : g ≢ parted = λ q. let x = sym e ∙ ap v.place q ∙ c in cc in
      let mine : v'.place g ≡ runs t =
        update_self (put parted (left_wait t its_flag) v).place g (runs t) in
      let left : v'.place parted ≡ left_wait t its_flag =
        update_case (λ x. x ≡ left_wait t its_flag) (put parted (left_wait t its_flag) v).place g
          parted (runs t) (λ q. absurd (apart q))
          (λ q. update_self v.place parted (left_wait t its_flag)) in
      let old : FiberFits v s parted (parts t its_flag) = let f = iv.fibers parted in rw c at f in
      record {
        threads =
            threads_after v' s.shared.tls s.pc t took entering (mine, rw dest (rw same left))
              (λ u ne.
                thread_frame v v' u (s.shared.tls u) (s.pc u)
                  (puts-keep v g parted u (runs t) (left_wait t its_flag) (λ o. rw e at o)
                    (λ o. let x = rw c at o in ne (sym x)))
                  (iv.threads u));
        fibers = λ h.
            update_case (λ x. FiberFits v' found h x) (put parted (left_wait t its_flag) v).place g
              h (runs t) (λ q. rw (← q, ==-refl g) refl)
              (λ q.
                update_case (λ x. FiberFits v' found h x) v.place parted h (left_wait t its_flag)
                  (λ q'. let (a, b, lt, w, _, _) = old in ground arith)
                  (λ q'.
                    other_fiber v v' s found t took entering refl refl h (ground arith)
                      (λ k lt w. (refl, refl)) (omega arith)
                      (loose_parting v s h t (v.place h) at q' (iv.fibers h)) (iv.fibers h)));
        slotted = Entries-same v v' in_slot s.slots (found-same e c) iv.slotted;
        readied =
            readied_after v v' s.shared.tls t took
              (Entries-same v v' (with_thread t) (s.shared.tls t).ready_fibers (found-same e c)
                (iv.readied t))
              (λ u ne.
                Entries-same v v' (with_thread u) (s.shared.tls u).ready_fibers (found-same e c)
                  (iv.readied u));
      }
