-- ===== src/JobList/Ended.antt =====
-- `List::Wait` while the list's jobs end.
use nomad_tasks.Prelude.{
  ℕ, suc, ◌+◌, ◌^◌, ◌<◌, ◌≡◌, ◌≢◌, refl, sym, ap, ◌∙◌, true, false, some, List, [], ◌∷◌, ◌++◌,
  length, arith, ◌&&◌, leb, ltb, ==-refl, append_assoc, ◌==◌,
}
use nomad_tasks.Counter.{Counter, Ready, Waiter, minus, decrement}
use nomad_tasks.Counter.Add.{settled, sleepers-split}
use nomad_tasks.Counter.Check.{waits_for, entry, swept, sleepers, modify_lem}
use nomad_tasks.Manager.{Manager}
use nomad_tasks.Manager.Fibers.{cleanup_previous_fiber}
use nomad_tasks.Manager.Jobs.{leaves, count_down}
use nomad_tasks.Manager.Jobs.Waiting.{
  waiter, parked, wait_for_counter-parked, go_idle-switched, switched, left, left-fields,
  count_down-fields,
}
use nomad_tasks.JobList.{JobList, wait}

-- A fiber waits in slot `j` for `target`, on a counter of the value `v`.
pub record Waits (c : Counter) (j target v : ℕ) (e : Ready) : Type 0 where
  pub in_slots : j < c.num_waiting_fibers
  pub value : c.value ≡ v
  pub slot : waits_for c target j ≡ true
  pub own : entry c j ≡ e

settled-Waits :
    (j : ℕ) (w : Waiter) (c : Counter)
    → j < c.num_waiting_fibers
    → w.target ≢ c.value
    → Waits (settled j w c) j w.target c.value (w.fiber, w.stored)
unfolding settled
settled-Waits j w c lt ne = record {
  in_slots = lt;
  value = refl;
  slot = ground arith;
  own = ground arith;
}

target_lem :
    (c : Counter) (target j : ℕ)
    → waits_for c target j ≡ true
    → (c.waiting_fibers j).target_value ≡ target
target_lem c target j h = ground arith

decrement-Waits :
    (c : Counter) (r : List Ready) (j target v : ℕ) (e : Ready)
    → v + 1 < 2 ^ 32
    → target ≢ v
    → Waits c j target (v + 1) e
    → Waits (decrement 1 (c, r)).1.0 j target v e
unfolding swept
decrement-Waits c r j target v e small ne w =
    let down : minus c.value 1 ≡ v = rw w.value (omega arith) in
    let other : ((c.waiting_fibers j).target_value == v) ≡ false =
      ground (arith, target_lem c target j w.slot) in
    let inside : (leb 0 j && ltb j (0 + c.num_waiting_fibers)) ≡ true =
      ground (arith, w.in_slots) in
    let busy : c.free_waiting_slots j ≡ false = ground (arith, w.slot) in
    let awake : (c.waiting_fibers j).in_use ≡ false = ground (arith, w.slot) in
    let waits : waits_for c target j ≡ true = w.slot in
    rw (modify_lem 1 c r).1 (
      rw down (record {
        in_slots = w.in_slots;
        value = refl;
        slot = ground arith;
        own = rw (other, inside, busy, awake) w.own;
      }))

decrement-ready :
    (c : Counter) (r : List Ready) (j target : ℕ) (e : Ready)
    → target + 1 < 2 ^ 32
    → Waits c j target (target + 1) e
    → (before after : List Ready) × ((decrement 1 (c, r)).1.1 ≡ before ++ (e ∷ after))
decrement-ready c r j target e small w =
    let down : minus c.value 1 ≡ target = rw w.value (omega arith) in
    let (b, a, split) =
      sleepers-split c.num_waiting_fibers 0 j target c (omega arith)
        (let lt = w.in_slots in omega arith) w.slot in
    (
      r ++ b,
      a,
      ap (λ s. s.1.1) (modify_lem 1 c r).1
          ∙ ap (λ v. r ++ sleepers c v c.num_waiting_fibers 0) down
          ∙ ap (λ l. r ++ l) split
          ∙ ap (λ x. r ++ (b ++ (x ∷ a))) w.own
          ∙ sym (append_assoc r b (e ∷ a)),
    )

module _ {F : Type 0} (i : ℕ) where
  -- Jobs of the list end on the given threads.
  abbrev pub jobs_end : List ℕ → Manager F → Manager F
  jobs_end [] m = m
  jobs_end (u ∷ us) m = jobs_end us (count_down (some i) u m)

  count_down-counter :
      (u : ℕ) (m : Manager F)
      → (count_down (some i) u m).counters i
        ≡ (decrement 1 (m.counters i, (m.tls u).ready_fibers)).1.0
  unfolding count_down
  count_down-counter u m = rw (==-refl i) refl

  jobs_end-stored : (us : List ℕ) (m : Manager F) → (jobs_end us m).stored ≡ m.stored
  jobs_end-stored [] m = refl
  jobs_end-stored (u ∷ us) m =
      jobs_end-stored us (count_down (some i) u m) ∙ (count_down-fields u i m).1

  jobs_end-Waits :
      (us : List ℕ) (m : Manager F) (j target v : ℕ) (e : Ready)
      → length us + v < 2 ^ 32
      → target < v
      → Waits (m.counters i) j target (length us + v) e
      → Waits ((jobs_end us m).counters i) j target v e
  jobs_end-Waits [] m j target v e small more w = let same : 0 + v ≡ v = omega arith in rw same at w
  jobs_end-Waits (u ∷ us) m j target v e small more w =
      let same : suc (length us) + v ≡ length us + v + 1 = omega arith in
      jobs_end-Waits us (count_down (some i) u m) j target v e (omega arith) more (
        rw (count_down-counter u m) (
          decrement-Waits (m.counters i) (m.tls u).ready_fibers j target (length us + v) e
            (omega arith) (λ eq. omega arith) (rw same at w)))

module _ {F : Type 0} (l : JobList) where
  -- What follows `Wait` on thread `t`, which has left its fiber in slot `j`, while jobs end on the
  -- threads `us` and then on `u`.
  abbrev pub Ends : (t j target u : ℕ) (us : List ℕ) (m m' : Manager F) → Type 0
  Ends t j target u us m m' =
      let e : Ready = ((m.tls t).current_fiber, m.next_stored) in
      let later = jobs_end l.counter us (cleanup_previous_fiber t m') in
      let end = count_down (some l.counter) u later in
      (before after : List Ready) × Waits (later.counters l.counter) j target (target + 1) e
      × ((end.tls u).ready_fibers ≡ before ++ (e ∷ after))
      × (end.stored m.next_stored ≡ true)

  -- `Wait` for a value below that of the list's counter, with slot `j` the first that is free, and
  -- with an idle fiber: the fiber of thread `t` is left for an idle one, and waits in the slot until
  -- as many jobs have ended, on whatever threads, as the value is below the counter's; then it is
  -- among the ready fibers of the thread that the last of them ended on, as one that has been left.
  pub wait-Ends :
      (t j f target u : ℕ) (us : List ℕ) (m : Manager F)
      → j < (m.counters l.counter).num_waiting_fibers
      → ((a : ℕ) → a < j → (m.counters l.counter).free_waiting_slots a ≡ false)
      → (m.counters l.counter).free_waiting_slots j ≡ true
      → (m.counters l.counter).value ≡ length us + (target + 1)
      → length us + (target + 1) < 2 ^ 32
      → f < m.num_fibers
      → m.idle_fibers f ≡ true
      → (g : ℕ) × (m' : Manager F) × (wait t target l m ≡ some (leaves g, m'))
        × (m.idle_fibers g ≡ true)
        × Ends t j target u us m m'
  unfolding wait
  wait-Ends t j f target u us m lt first free value small pool idle =
      let i = l.counter in
      let e : Ready = ((m.tls t).current_fiber, m.next_stored) in
      let ne : target ≢ (m.counters i).value = λ eq. omega arith in
      let (g, gone, was) = go_idle-switched t f (parked m t i target j) pool idle in
      let (counter_left, flag_left) = left-fields m t u i j f target g in
      let waits : Waits ((left m t u i j f target g).counters i) j target (length us + (target + 1))
          e =
        rw (counter_left, ← value) (settled-Waits j (waiter m t target) (m.counters i) lt ne) in
      let later =
        jobs_end-Waits i us (left m t u i j f target g) j target (target + 1) e small (omega arith)
          waits in
      let end = jobs_end i us (left m t u i j f target g) in
      let (b, a, ready) =
        decrement-ready (end.counters i) (end.tls u).ready_fibers j target e (omega arith) later in
      let (listed, same) = count_down-fields u i end in
      (
        g,
        switched t g (parked m t i target j),
        wait_for_counter-parked m t i target j lt first free ne ∙ gone,
        was,
        (
          b,
          a,
          later,
          listed ∙ ready,
          ap (λ s. s m.next_stored) (same ∙ jobs_end-stored i us (left m t u i j f target g))
              ∙ flag_left,
        ),
      )
