-- ===== src/Counter/Check.antt =====
-- `CheckWaitingFibers` (Counter.cpp) with no other thread at work: which fibers it makes ready.
use nomad_tasks.Prelude.{
  ℕ, zero, suc, ◌+◌, ◌≤◌, ◌<◌, ◌≡◌, refl, sym, ap, ◌∙◌, Bool, true, not, ◌&&◌, ◌||◌, List, [], ◌∷◌,
  ◌++◌, append_assoc, append-nil, ◌==◌, if◌then◌else◌, ltb, leb, arith, Bool-cases, inl, inr,
  fun_ext,
}
use nomad_tasks.Counter.{
  Counter, Ready, plus, minus, release_slot, store_in_use, check_slot, check_loop,
  check_waiting_fibers, increment, decrement,
}

-- A fiber waits in slot `i` for the counter to be `value`.
abbrev pub waits_for : Counter → ℕ → ℕ → Bool
waits_for c value i =
    not (c.free_waiting_slots i)
    && not (c.waiting_fibers i).in_use
    && (c.waiting_fibers i).target_value == value

abbrev pub entry : Counter → ℕ → Ready
entry c i = ((c.waiting_fibers i).fiber_index, (c.waiting_fibers i).fiber_stored)

-- The fibers that wait for `value` in the `n` slots from `i` on, in the order of the slots.
unfoldable pub sleepers : Counter → ℕ → ℕ → ℕ → List Ready
sleepers c value zero i = []
sleepers c value (suc n) i =
    let rest = sleepers c value n (i + 1) in if waits_for c value i then entry c i ∷ rest else rest

-- Slot `j` after the check of slots `i` to `i + n`.
abbrev in_range : ℕ → ℕ → ℕ → Bool
in_range n i j = leb i j && ltb j (i + n)

-- The slot's fiber is made ready and the slot taken back.
abbrev woken : Counter → ℕ → Counter
woken c i = release_slot i (store_in_use i true c)

check_slot-eq :
    (value i : ℕ) (c : Counter) (r : List Ready)
    → check_slot value i (c, r)
      ≡ (if waits_for c value i then (woken c i, r ++ (entry c i ∷ [])) else (c, r))
unfolding check_slot
check_slot-eq value i c r = ground arith

-- One round of the loop.
check_loop-suc :
    (n i value : ℕ) (c : Counter) (r : List Ready)
    → check_loop (suc n) i value (c, r) ≡ (
        if waits_for c value i
        then check_loop n (i + 1) value (woken c i, r ++ (entry c i ∷ []))
        else check_loop n (i + 1) value (c, r))
unfolding check_loop
check_loop-suc n i value c r = elim (Bool-cases (waits_for c value i)) [
  | inl w ↦ rw w (ap (check_loop n (i + 1) value) (check_slot-eq value i c r ∙ rw w))
  | inr w ↦ rw w (ap (check_loop n (i + 1) value) (check_slot-eq value i c r ∙ rw w))
]

-- The number of slots and the value stay.
pub check_loop-kept :
    (n i value : ℕ) (c : Counter) (r : List Ready)
    → let c' = (check_loop n i value (c, r)).0 in
      (c'.value ≡ c.value) × (c'.num_waiting_fibers ≡ c.num_waiting_fibers)
unfolding check_loop
check_loop-kept zero i value c r = (refl, refl)
check_loop-kept (suc n) i value c r =
    rw (check_loop-suc n i value c r) (elim (Bool-cases (waits_for c value i)) [
      | inl w ↦ rw w (check_loop-kept n (i + 1) value (woken c i) (r ++ (entry c i ∷ [])))
      | inr w ↦ rw w (check_loop-kept n (i + 1) value c r)
    ])

check_loop-slot :
    (n i value j : ℕ) (c : Counter) (r : List Ready)
    → let c' = (check_loop n i value (c, r)).0 in
      let woken = in_range n i j && waits_for c value j in
      (c'.free_waiting_slots j ≡ (woken || c.free_waiting_slots j))
      × (c'.waiting_fibers j
          ≡ (if woken then record (c.waiting_fibers j) { in_use = true } else c.waiting_fibers j))
unfolding check_loop
check_loop-slot zero i value j c r = ground arith
check_loop-slot (suc n) i value j c r =
    rw (check_loop-suc n i value c r) (elim (Bool-cases (waits_for c value i)) [
      | inl w ↦
          rw w
            (ground (arith, check_loop-slot n (i + 1) value j (woken c i) (r ++ (entry c i ∷ []))))
      | inr w ↦ rw w (ground (arith, check_loop-slot n (i + 1) value j c r))
    ])

-- A slot that is checked does not change what the later slots are.
sleepers-woken :
    (c : Counter) (value i n j : ℕ) → i < j → sleepers (woken c i) value n j ≡ sleepers c value n j
unfolding sleepers
sleepers-woken c value i zero j h = refl
sleepers-woken c value i (suc n) j h = ground (arith, sleepers-woken c value i n (j + 1))

check_loop-ready :
    (n i value : ℕ) (c : Counter) (r : List Ready)
    → (check_loop n i value (c, r)).1 ≡ r ++ sleepers c value n i
unfolding check_loop sleepers
check_loop-ready zero i value c r = sym (append-nil r)
check_loop-ready (suc n) i value c r =
    rw (check_loop-suc n i value c r) (elim (Bool-cases (waits_for c value i)) [
      | inl w ↦ rw w (
          check_loop-ready n (i + 1) value (woken c i) (r ++ (entry c i ∷ []))
          ∙ ap (λ l. (r ++ (entry c i ∷ [])) ++ l)
              (sleepers-woken c value i n (i + 1) (omega arith))
          ∙ append_assoc r (entry c i ∷ []) (sleepers c value n (i + 1)))
      | inr w ↦ rw w (check_loop-ready n (i + 1) value c r)
    ])

-- The counter once the fibers that wait for `value` have been taken out of their slots.
unfoldable pub swept : ℕ → Counter → Counter
swept value c =
    let wakes = λ (j : ℕ). in_range c.num_waiting_fibers 0 j && waits_for c value j in
    record c {
      waiting_fibers = λ j.
          if wakes j then record (c.waiting_fibers j) { in_use = true } else c.waiting_fibers j;
      free_waiting_slots = λ j. wakes j || c.free_waiting_slots j;
    }

-- `CheckWaitingFibers(value)` appends to the ready list, in the order of the slots, the fibers that
-- wait for `value`, and takes exactly their slots back.
check_waiting_fibers_lem :
    (value : ℕ) (c : Counter) (r : List Ready)
    → check_waiting_fibers value (c, r)
      ≡ (swept value c, r ++ sleepers c value c.num_waiting_fibers 0)
unfolding check_waiting_fibers swept
check_waiting_fibers_lem value c r = λ t. (
  record {
    value = (check_loop-kept c.num_waiting_fibers 0 value c r).0 t;
    num_waiting_fibers = (check_loop-kept c.num_waiting_fibers 0 value c r).1 t;
    waiting_fibers = fun_ext (λ j. (check_loop-slot c.num_waiting_fibers 0 value j c r).1) t;
    free_waiting_slots = fun_ext (λ j. (check_loop-slot c.num_waiting_fibers 0 value j c r).0) t;
  },
  check_loop-ready c.num_waiting_fibers 0 value c r t,
)

sleepers-value :
    (c : Counter) (v value n i : ℕ)
    → sleepers (record c { value = v }) value n i ≡ sleepers c value n i
unfolding sleepers
sleepers-value c v value zero i = refl
sleepers-value c v value (suc n) i = ground (arith, sleepers-value c v value n (i + 1))

sleepers-swept :
    (value : ℕ) (c : Counter) (n i : ℕ)
    → i + n ≤ c.num_waiting_fibers
    → sleepers (swept value c) value n i ≡ []
unfolding sleepers swept
sleepers-swept value c zero i h = refl
sleepers-swept value c (suc n) i h = ground (arith, sleepers-swept value c n (i + 1))

moved_lem :
    (value : ℕ) (c : Counter) (r : List Ready)
    → check_waiting_fibers value (record c { value = value }, r)
      ≡ (swept value (record c { value = value }), r ++ sleepers c value c.num_waiting_fibers 0)
moved_lem value c r =
    check_waiting_fibers_lem value (record c { value = value }) r
    ∙ ap (λ l. (swept value (record c { value = value }), r ++ l))
        (sleepers-value c value value c.num_waiting_fibers 0)

-- `Increment` and `Decrement` give back the value before, set the new one modulo 2 ^ 32, make ready
-- exactly the fibers that wait for it, in the order of the slots, and take those slots back.
pub modify_lem :
    (by : ℕ) (c : Counter) (r : List Ready)
    → let up = plus c.value by in
      let down = minus c.value by in
      (increment by (c, r) ≡ (
        c.value,
        (swept up (record c { value = up }), r ++ sleepers c up c.num_waiting_fibers 0),
      ))
      × (decrement by (c, r) ≡ (
        c.value,
        (swept down (record c { value = down }), r ++ sleepers c down c.num_waiting_fibers 0),
      ))
unfolding increment decrement
modify_lem by c r = (
  ap (λ s. (c.value, s)) (moved_lem (plus c.value by) c r),
  ap (λ s. (c.value, s)) (moved_lem (minus c.value by) c r),
)

-- After `Increment` or `Decrement` no fiber waits for the value that the counter has.
pub modify-sleepers :
    (by : ℕ) (c : Counter) (r : List Ready)
    → let c₁ = (increment by (c, r)).1.0 in
      let c₂ = (decrement by (c, r)).1.0 in
      (sleepers c₁ c₁.value c.num_waiting_fibers 0 ≡ [])
      × (sleepers c₂ c₂.value c.num_waiting_fibers 0 ≡ [])
unfolding swept
modify-sleepers by c r = (
  rw (modify_lem by c r).0 (
      sleepers-swept (plus c.value by) (record c { value = plus c.value by }) c.num_waiting_fibers 0
        (omega arith)),
  rw (modify_lem by c r).1 (
      sleepers-swept (minus c.value by) (record c { value = minus c.value by }) c.num_waiting_fibers
        0 (omega arith)),
)
