-- ===== src/Manager/Interleaved/Waiting.antt =====
-- `WaitForCounter` enters its fiber into a slot, and `CheckWaitingFibers` takes an entry out of one.
use nomad_tasks.Prelude.{
  update_case, ℕ, ◌≡◌, ◌≢◌, refl, sym, ap, ◌∙◌, Option, some, none, List, [], ◌∷◌, ◌++◌, get_elem?,
  arith, update, update_self, ==-refl,
}
use nomad_tasks.Counter.{Ready}
use nomad_tasks.Manager.{Tls, set_tls}
use nomad_tasks.Manager.Jobs.{leaving, new_flag}
use nomad_tasks.Manager.Interleaved.{System, running, parting, current, move, make_ready, without}
use nomad_tasks.Manager.Interleaved.Places.{
  runs, parts, flag_of, Spot, in_slot, with_thread, Ghost, ThreadFits, FiberFits, Entries, Inv,
  Kept,
}
use nomad_tasks.Manager.Interleaved.Entries.{
  SameEntry, Entries-except, Entries-elsewhere, Entries-unflagged, Entries-snoc, Entries-without,
}
use nomad_tasks.Manager.Interleaved.Frame.{Alike, loose_at, thread_frame, fiber_frame}
use nomad_tasks.Manager.Interleaved.Steps.{put-keeps, threads_after, readied_after, other_fiber}

module _ {F : Type 0} (v : Ghost) (s : System F) (t : ℕ) where
  abbrev flag : ℕ
  flag = s.shared.next_stored

  abbrev left : ℕ
  left = current s t

  abbrev after_wait : Ghost
  after_wait = record {
    place = update v.place left (parts t flag);
    spot = update v.spot left in_slot;
    whose = update v.whose flag left;
  }

  abbrev pub waiting : System F
  waiting =
      record (move t parting (set_tls t (leaving flag (s.shared.tls t)) (new_flag s.shared)) s) {
        slots = s.slots ++ ((left, flag) ∷ []);
      }

  same_entry : (g : ℕ) → left ≢ g → SameEntry v after_wait g
  same_entry g ne = (
    update_case (λ x. flag_of x ≡ flag_of (v.place g)) v.place left g (parts t flag)
        (λ q. absurd (ne q)) (λ q. refl),
    update_case (λ x. x ≡ v.spot g) v.spot left g in_slot (λ q. absurd (ne q)) (λ q. refl),
  )

  pub wait-Inv : Inv v s → s.pc t ≡ running → Inv after_wait waiting
  wait-Inv iv at =
      let v' = after_wait in
      let l' = leaving flag (s.shared.tls t) in
      let c : v.place left ≡ runs t = let x = iv.threads t in rw at at x in
      let left_taken : FiberFits v s left (runs t) = let x = iv.fibers left in rw c at x in
      let place : v'.place left ≡ parts t flag = update_self v.place left (parts t flag) in
      let none_of = λ (p : Spot) (l : List Ready) (h : Entries v p l).
        Entries-unflagged v p left l (rw c refl) h in
      record {
        threads =
            threads_after v' s.shared.tls s.pc t l' parting (place, refl, refl)
              (λ u ne.
                thread_frame v v' u (s.shared.tls u) (s.pc u)
                  (put-keeps v left u (parts t flag) (λ o. let x = rw c at o in ne (sym x)))
                  (iv.threads u));
        fibers = λ h.
            update_case (λ x. FiberFits v' waiting h x) v.place left h (parts t flag)
              (λ q.
                rw (← q, ==-refl t, ==-refl flag)
                  (
                    left_taken,
                    refl,
                    omega arith,
                    refl,
                    refl,
                    ap (λ x. x.current_fiber) (update_self s.shared.tls t l'),
                  ))
              (λ q.
                other_fiber v v' s waiting t l' parting refl refl h refl (λ k lt w. ground arith)
                  (omega arith) (loose_at v s h t (v.place h) (λ x. cc) (λ x. cc) (iv.fibers h))
                  (iv.fibers h));
        slotted =
            Entries-snoc v' in_slot left flag s.slots
              (Entries-except v v' in_slot left s.slots same_entry
                (none_of in_slot s.slots iv.slotted) iv.slotted)
              (none_of in_slot s.slots iv.slotted) (rw place refl)
              (update_self v.spot left in_slot);
        readied =
            readied_after v v' s.shared.tls t l'
              (Entries-except v v' (with_thread t) left (s.shared.tls t).ready_fibers same_entry
                (none_of (with_thread t) (s.shared.tls t).ready_fibers (iv.readied t))
                (iv.readied t))
              (λ u ne.
                Entries-except v v' (with_thread u) left (s.shared.tls u).ready_fibers same_entry
                  (none_of (with_thread u) (s.shared.tls u).ready_fibers (iv.readied u))
                  (iv.readied u));
      }

module _ {F : Type 0} (v : Ghost) (s : System F) (t i f k : ℕ) where
  abbrev after_wake : Ghost
  after_wake = record v { spot = update v.spot f (with_thread t) }

  abbrev woken : Tls
  woken = record (s.shared.tls t) { ready_fibers = (s.shared.tls t).ready_fibers ++ ((f, k) ∷ []) }

  abbrev awake : System F
  awake = make_ready t i (some (f, k)) s

  same_spot : (g : ℕ) → f ≢ g → SameEntry v after_wake g
  same_spot g ne = (
    refl,
    update_case (λ x. x ≡ v.spot g) v.spot f g (with_thread t) (λ q. absurd (ne q)) (λ q. refl),
  )

  same_record : (u : ℕ) → Alike s awake u
  same_record u =
      let P = λ (x : Tls).
        (x.current_fiber ≡ (s.shared.tls u).current_fiber)
        × (x.previous_fiber ≡ (s.shared.tls u).previous_fiber)
        × (x.previous_destination ≡ (s.shared.tls u).previous_destination) in
      let (a, b, c) =
        update_case P s.shared.tls t u woken (λ q. rw q (refl, refl, refl))
          (λ q. (refl, refl, refl)) in
      (refl, a, b, c)

  pub wake-Inv :
      Inv v s → s.pc t ≡ running → get_elem? s.slots i ≡ some (f, k) → Inv after_wake awake
  wake-Inv iv at e =
      let v' = after_wake in
      let (a, b, n, keep) = Entries-without v in_slot i f k s.slots iv.slotted e in
      let none_of = λ (u : ℕ).
        Entries-elsewhere v (with_thread u) f (s.shared.tls u).ready_fibers
          (λ x. let y = sym b ∙ x in cc) (iv.readied u) in
      record {
        threads = λ u.
            update_case (λ x. ThreadFits v' u x (s.pc u)) s.shared.tls t u woken
              (λ q. let h = iv.threads t in let c = rw at at h in rw (← q, at) c)
              (λ q. iv.threads u);
        fibers = λ h.
            fiber_frame v v' s awake h (v.place h) refl (λ k lt w. (refl, refl)) (omega arith)
              (λ u tie. same_record u) (iv.fibers h);
        slotted = Entries-except v v' in_slot f (without i s.slots) same_spot n keep;
        readied =
            readied_after v v' s.shared.tls t woken
              (Entries-snoc v' (with_thread t) f k (s.shared.tls t).ready_fibers
                (Entries-except v v' (with_thread t) f (s.shared.tls t).ready_fibers same_spot
                  (none_of t) (iv.readied t))
                (none_of t) a (update_self v.spot f (with_thread t)))
              (λ u ne.
                Entries-except v v' (with_thread u) f (s.shared.tls u).ready_fibers same_spot
                  (none_of u) (iv.readied u));
      }

module _ {F : Type 0} (v : Ghost) (s : System F) (t : ℕ) where
  wake_by :
      (i : ℕ) (o : Option Ready)
      → get_elem? s.slots i ≡ o
      → Inv v s
      → s.pc t ≡ running
      → Kept (make_ready t i o s)
  wake_by i none e iv at = (v, iv)
  wake_by i (some (f, k)) e iv at = (after_wake v s t i f k, wake-Inv v s t i f k iv at e)

  pub wake-Kept :
      (i : ℕ) → Inv v s → s.pc t ≡ running → Kept (make_ready t i (get_elem? s.slots i) s)
  wake-Kept i iv at = wake_by i (get_elem? s.slots i) refl iv at
