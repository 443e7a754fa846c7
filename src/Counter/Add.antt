-- ===== src/Counter/Add.antt =====
-- `AddWaitingFiber` (Counter.cpp) with no other thread at work, on each of its branches.
use nomad_tasks.Prelude.{
  ℕ, zero, suc, ◌+◌, ◌≤◌, ◌<◌, ◌≡◌, ◌≢◌, refl, ap, ◌∙◌, true, false, List, [], ◌∷◌, ◌++◌, ◌==◌,
  if◌then◌else◌, arith, Bool-cases, inl, inr, dec_lt, ==-refl, update, update-update,
}
use nomad_tasks.Counter.{
  Counter, Waiter, Ready, Added, done_already, waiting, slots_full, minus, fill_slot, add_loop,
  add_waiting_fiber, decrement,
}
use nomad_tasks.Counter.Check.{waits_for, entry, sleepers, modify_lem}

add_loop-full :
    (n i : ℕ) (w : Waiter) (c : Counter)
    → ((j : ℕ) → i ≤ j → j < i + n → c.free_waiting_slots j ≡ false)
    → add_loop n i w c ≡ (slots_full, c)
unfolding add_loop
add_loop-full zero i w c h = refl
add_loop-full (suc n) i w c h =
    rw (h i (omega arith) (omega arith))
      (add_loop-full n (i + 1) w c (λ j ge lt. h j (omega arith) (omega arith)))

add_loop-first :
    (n i j : ℕ) (w : Waiter) (c : Counter)
    → i ≤ j
    → j < i + n
    → ((a : ℕ) → i ≤ a → a < j → c.free_waiting_slots a ≡ false)
    → c.free_waiting_slots j ≡ true
    → add_loop n i w c ≡ fill_slot j w c
unfolding add_loop
add_loop-first zero i j w c ge lt h f = absurd (omega arith)
add_loop-first (suc n) i j w c ge lt h f = elim (dec_lt i j) [
  | yes before ↦ rw (h i (omega arith) before) (
      add_loop-first n (i + 1) j w c (omega arith) (omega arith)
        (λ a ge' lt'. h a (omega arith) lt') f)
  | no here ↦
      let e : i ≡ j = omega arith in
      let fi : c.free_waiting_slots i ≡ true = rw e f in rw fi (ap (λ t. fill_slot t w c) e)
]

-- The counter with `w` in slot `i`, taken if `w` has to wait and free again if not.
unfoldable pub settled : ℕ → Waiter → Counter → Counter
settled i w c =
    let reached = w.target == c.value in
    record c {
      waiting_fibers = update c.waiting_fibers i (record {
        fiber_index = w.fiber;
        fiber_stored = w.stored;
        target_value = w.target;
        in_use = reached;
      });
      free_waiting_slots = update c.free_waiting_slots i reached;
    }

abbrev pub outcome : Waiter → Counter → Added
outcome w c = if w.target == c.value then done_already else waiting

fill_slot_lem : (i : ℕ) (w : Waiter) (c : Counter) → fill_slot i w c ≡ (outcome w c, settled i w c)
unfolding fill_slot settled
fill_slot_lem i w c = elim (Bool-cases (w.target == c.value)) [
  | inl e ↦ rw (e, ==-refl i) (rw e (simp update-update))
  | inr e ↦ rw (e, ==-refl i) (rw e (simp update-update))
]

-- With no free slot `AddWaitingFiber` throws, and changes nothing.
add_waiting_fiber-full :
    (w : Waiter) (c : Counter)
    → ((j : ℕ) → j < c.num_waiting_fibers → c.free_waiting_slots j ≡ false)
    → add_waiting_fiber w c ≡ (slots_full, c)
unfolding add_waiting_fiber
add_waiting_fiber-full w c h =
    add_loop-full c.num_waiting_fibers 0 w c (λ j ge lt. h j (omega arith))

-- With a free slot `AddWaitingFiber` fills the first: it ends at once, with the slot free again, if
-- the counter has the target value, and else leaves the fiber waiting there; no other slot changes.
pub add_waiting_fiber-first :
    (w : Waiter) (c : Counter) (i : ℕ)
    → i < c.num_waiting_fibers
    → ((j : ℕ) → j < i → c.free_waiting_slots j ≡ false)
    → c.free_waiting_slots i ≡ true
    → add_waiting_fiber w c ≡ (outcome w c, settled i w c)
unfolding add_waiting_fiber
add_waiting_fiber-first w c i lt h f =
    add_loop-first c.num_waiting_fibers 0 i w c (omega arith) (omega arith) (λ a ge b. h a b) f
    ∙ fill_slot_lem i w c

-- A fiber that waits in a slot is among the sleepers.
pub sleepers-split :
    (n i j value : ℕ) (c : Counter)
    → i ≤ j
    → j < i + n
    → waits_for c value j ≡ true
    → (before after : List Ready) × (sleepers c value n i ≡ before ++ (entry c j ∷ after))
unfolding sleepers
sleepers-split zero i j value c ge lt h = absurd (omega arith)
sleepers-split (suc n) i j value c ge lt h = elim (dec_lt i j) [
  | yes earlier ↦
      let (b, a, e) = sleepers-split n (i + 1) j value c (omega arith) (omega arith) h in
      elim (Bool-cases (waits_for c value i)) [
        | inl w ↦ (entry c i ∷ b, a, rw w (ap (λ l. entry c i ∷ l) e))
        | inr w ↦ (b, a, rw w e)
      ]
  | no here ↦
      let e : i ≡ j = omega arith in
      let w : waits_for c value i ≡ true = rw e h in
      ([], sleepers c value n (i + 1), rw w (ap (λ t. entry c t ∷ sleepers c value n (i + 1)) e))
]

-- The round trip: a fiber that finds a free slot, and waits for a value other than the counter's,
-- is made ready once `Decrement` takes the counter there.
pub wait-decrement :
    (w : Waiter) (c : Counter) (i by : ℕ) (r : List Ready)
    → i < c.num_waiting_fibers
    → ((j : ℕ) → j < i → c.free_waiting_slots j ≡ false)
    → c.free_waiting_slots i ≡ true
    → w.target ≢ c.value
    → minus c.value by ≡ w.target
    → (before after : List Ready) × (let (result, c') = add_waiting_fiber w c in
        (result ≡ waiting)
        × ((decrement by (c', r)).1.1 ≡ r ++ (before ++ ((w.fiber, w.stored) ∷ after))))
unfolding settled
wait-decrement w c i by r lt first free ne reach =
    let c' = settled i w c in
    let here : waits_for c' (minus c.value by) i ≡ true = ground arith in
    let (b, a, e) =
      sleepers-split c.num_waiting_fibers 0 i (minus c.value by) c' (omega arith) (omega arith)
        here in
    let own : entry c' i ≡ (w.fiber, w.stored) = ground arith in
    (
      b,
      a,
      rw (add_waiting_fiber-first w c i lt first free) (
        ground arith,
        ap (λ s. s.1.1) (modify_lem by c' r).1
            ∙ ap (λ l. r ++ l) e
            ∙ ap (λ x. r ++ (b ++ (x ∷ a))) own,
      ),
    )
