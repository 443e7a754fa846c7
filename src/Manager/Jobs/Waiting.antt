-- ===== src/Manager/Jobs/Waiting.antt =====
-- `WaitForCounter` (ManagerJobs.cpp): how a fiber is left, and how it becomes one that can be resumed.
use nomad_tasks.Prelude.{
  ℕ, ◌<◌, ◌≡◌, ◌≢◌, refl, sym, ap, ◌∙◌, Bool, true, false, some, List, [], ◌∷◌, ◌++◌, append_assoc,
  Bool-cases, inl, inr, arith, update, ◌==◌, ==-refl,
}
use nomad_tasks.Counter.{Ready, Waiter, minus, decrement}
use nomad_tasks.Counter.Add.{settled, add_waiting_fiber-first, wait-decrement}
use nomad_tasks.Mpmc.{Mpmc}
use nomad_tasks.Manager.{Manager, set_tls}
use nomad_tasks.Manager.Fibers.{
  take_fiber, find_free_fiber-idle, find_free_fiber-total, hand_back, cleanup_previous_fiber,
}
use nomad_tasks.Manager.Jobs.{
  leaves, new_flag, leaving, go_idle, after_add, wait_in, wait_for_counter, count_down, take_ready,
}

module _ {F : Type 0} (m : Manager F) (t target : ℕ) where
  -- What thread `t` hands to `AddWaitingFiber`.
  abbrev pub waiter : Waiter
  waiter = record { fiber = (m.tls t).current_fiber; stored = m.next_stored; target = target }

module _ {F : Type 0} (m : Manager F) (t i target : ℕ) where
  -- The manager before the search for an idle fiber.
  abbrev pub parked : ℕ → Manager F
  parked j = set_tls t (leaving m.next_stored (m.tls t)) (record (new_flag m) {
    counters = update m.counters i (settled j (waiter m t target) (m.counters i));
  })

  pub wait_for_counter-parked :
      (j : ℕ)
      → j < (m.counters i).num_waiting_fibers
      → ((a : ℕ) → a < j → (m.counters i).free_waiting_slots a ≡ false)
      → (m.counters i).free_waiting_slots j ≡ true
      → target ≢ (m.counters i).value
      → wait_for_counter t (some i) target m ≡ go_idle t (parked j)
  unfolding wait_for_counter wait_in after_add
  wait_for_counter-parked j lt first free ne =
      let apart : ((m.counters i).value == target) ≡ false = ground arith in
      let apart' : (target == (m.counters i).value) ≡ false = ground arith in
      rw (apart, add_waiting_fiber-first (waiter m t target) (m.counters i) j lt first free, apart')
        refl

module _ {F : Type 0} where
  -- The manager once thread `t` has switched to fiber `g`.
  abbrev pub switched : ℕ → ℕ → Manager F → Manager F
  switched t g m = set_tls t (record (m.tls t) { current_fiber = g }) (take_fiber g m)

  pub go_idle-switched :
      (t f : ℕ) (m : Manager F)
      → f < m.num_fibers
      → m.idle_fibers f ≡ true
      → (g : ℕ) × (go_idle t m ≡ some (leaves g, switched t g m)) × (m.idle_fibers g ≡ true)
  go_idle-switched t f m lt idle =
      let (g, m', e) = find_free_fiber-total m f lt idle in
      let (_, was, same) = find_free_fiber-idle m g m' e in (g, rw e (rw same refl), was)

  pub count_down-fields :
      (u i : ℕ) (m : Manager F)
      → let m' = count_down (some i) u m in
        ((m'.tls u).ready_fibers ≡ (decrement 1 (m.counters i, (m.tls u).ready_fibers)).1.1)
        × (m'.stored ≡ m.stored)
  unfolding count_down
  count_down-fields u i m = (rw (==-refl u) refl, refl)

-- A list of ready fibers with one that has been left has a first such.
take_ready-total :
    (stored : ℕ → Bool) (before after : List Ready) (f flag : ℕ)
    → stored flag ≡ true
    → (x : ℕ × List Ready) × (take_ready stored (before ++ ((f, flag) ∷ after)) ≡ some x)
unfolding take_ready
take_ready-total stored [] after f flag e = ((f, after), rw e refl)
take_ready-total stored ((g, other) ∷ before) after f flag e = elim (Bool-cases (stored other)) [
  | inl left ↦ ((g, before ++ ((f, flag) ∷ after)), rw left refl)
  | inr busy ↦
      let (x, h) = take_ready-total stored before after f flag e in
      ((x.0, (g, other) ∷ x.1), rw (busy, h) refl)
]

module _ {F : Type 0} (m : Manager F) (t u i j f target : ℕ) where
  -- The manager once thread `t` runs fiber `g` and has begun with `CleanupPreviousFiber`.
  abbrev pub left : ℕ → Manager F
  left g = cleanup_previous_fiber t (switched t g (parked m t i target j))

  pub left-fields :
      (g : ℕ)
      → ((left g).counters i ≡ settled j (waiter m t target) (m.counters i))
        × ((left g).stored m.next_stored ≡ true)
  unfolding cleanup_previous_fiber hand_back
  left-fields g = simp (==-refl t, ==-refl i, ==-refl m.next_stored) (refl, refl)

  -- Thread `u` has the fiber among its ready fibers, as one that has been left, and `x` is what the
  -- search among them finds.
  abbrev pub Listed : Manager F → ℕ × List Ready → Type 0
  Listed end x =
      (before after : List Ready) × ((end.tls u).ready_fibers
        ≡ before ++ (((m.tls t).current_fiber, m.next_stored) ∷ after))
      × (end.stored m.next_stored ≡ true)
      × (take_ready end.stored (end.tls u).ready_fibers ≡ some x)

  -- A fiber that waits is left for an idle one, and is among the ready fibers of the thread `u` that
  -- takes the counter to the value.
  pub wait-Listed :
      j < (m.counters i).num_waiting_fibers
      → ((a : ℕ) → a < j → (m.counters i).free_waiting_slots a ≡ false)
      → (m.counters i).free_waiting_slots j ≡ true
      → target ≢ (m.counters i).value
      → minus (m.counters i).value 1 ≡ target
      → f < m.num_fibers
      → m.idle_fibers f ≡ true
      → (g : ℕ) × (wait_for_counter t (some i) target m
          ≡ some (leaves g, switched t g (parked m t i target j)))
        × (m.idle_fibers g ≡ true)
        × ((x : ℕ × List Ready) × Listed (count_down (some i) u (left g)) x)
  wait-Listed lt first free ne reach pool idle =
      let w = waiter m t target in
      let (g, e, was) = go_idle-switched t f (parked m t i target j) pool idle in
      let (counter_left, flag_left) = left-fields g in
      let (ready, same) = count_down-fields u i (left g) in
      let r : List Ready = ((left g).tls u).ready_fibers in
      let (b, a, h) = wait-decrement w (m.counters i) j 1 r lt first free ne reach in
      let parked_in = add_waiting_fiber-first w (m.counters i) j lt first free in
      let list : ((count_down (some i) u (left g)).tls u).ready_fibers
          ≡ (r ++ b) ++ (((m.tls t).current_fiber, m.next_stored) ∷ a) =
        ready
        ∙ rw counter_left (rw parked_in at h).1
        ∙ sym (append_assoc r b (((m.tls t).current_fiber, m.next_stored) ∷ a)) in
      let flag : (count_down (some i) u (left g)).stored m.next_stored ≡ true =
        ap (λ s. s m.next_stored) same ∙ flag_left in
      let (x, found) =
        take_ready-total (count_down (some i) u (left g)).stored (r ++ b) a (m.tls t).current_fiber
          m.next_stored flag in
      (
        g,
        wait_for_counter-parked m t i target j lt first free ne ∙ e,
        was,
        (x, (r ++ b, a, list, flag, rw list found)),
      )
