-- ===== src/Mpmc/Concurrent.antt =====
-- Any number of threads in `enqueue` and `dequeue` of one queue (mpmc_queue.h), interleaved by a
-- schedule; a step of a thread is one access to memory that other threads use.
pub mod Invariant
pub mod Effects
pub mod Steps
pub mod Reach
pub mod Progress
pub mod Live
pub mod Safety
pub mod Tests
use nomad_tasks.Prelude.{
  ℕ, suc, ◌+◌, Bool, true, false, not, ◌&&◌, Option, none, some, List, [], ◌∷◌, ◌==◌, if◌then◌else◌,
  update, is_zero, is_neg,
}
use nomad_tasks.Mpmc.{
  Mpmc, enqueue_dif, dequeue_dif, claim_enqueue, claim_dequeue, write_data, publish, release,
  read_data,
}

-- Where a thread stands, with its live local variables.
pub data Pc (A : Type 0) : Type 0 where
  idle : Pc A
  enqueue_start : (x : A) → Pc A  -- before the load of `enqueue_pos_`, at first or to try again
  enqueue_test : (x : A) (pos : ℕ) → Pc A  -- before the load of the cell's sequence
  enqueue_cas : (x : A) (pos : ℕ) → Pc A  -- `dif == 0`, before the compare-exchange
  enqueue_write : (x : A) (pos : ℕ) → Pc A  -- after the `break`
  enqueue_publish : (x : A) (pos : ℕ) → Pc A
  enqueue_done : Bool → Pc A
  dequeue_start : Pc A
  dequeue_test : (pos : ℕ) → Pc A
  dequeue_cas : (pos : ℕ) → Pc A
  dequeue_read : (pos : ℕ) → Pc A
  dequeue_release : (pos : ℕ) (x : A) → Pc A
  dequeue_done : Option A → Pc A

-- What the schedule lets a thread do: begin a call, or go on. A weak compare-exchange may fail
-- though the values agree; the schedule says when.
pub data Turn (A : Type 0) : Type 0 where
  call_enqueue : A → Turn A
  call_dequeue : Turn A
  go : (spurious : Bool) → Turn A

-- `sent` and `received` are not in the program: the item of each position claimed by an enqueue, and
-- the items taken out with their positions, latest first.
pub record Shared (A : Type 0) : Type 0 where
  pub queue : Mpmc A
  pub sent : ℕ → A
  pub received : List (ℕ × A)

module _ {A : Type 0} where
  -- The five accesses that change shared memory.
  abbrev pub do_claim_enqueue : Shared A → A → ℕ → Shared A
  do_claim_enqueue s x pos = record s {
    queue = claim_enqueue s.queue pos;
    sent = update s.sent pos x;
  }

  abbrev pub do_write : Shared A → A → ℕ → Shared A
  do_write s x pos = record s { queue = write_data s.queue pos x }

  abbrev pub do_publish : Shared A → ℕ → Shared A
  do_publish s pos = record s { queue = publish s.queue pos }

  abbrev pub do_claim_dequeue : Shared A → ℕ → Shared A
  do_claim_dequeue s pos = record s { queue = claim_dequeue s.queue pos }

  abbrev pub do_release : Shared A → A → ℕ → Shared A
  do_release s x pos = record s { queue = release s.queue pos; received = (pos, x) ∷ s.received }

  -- One access of a thread that stands at the given place, and where it stands after.
  pub advance : Bool → Shared A → Pc A → Shared A × Pc A
  advance spurious s idle = (s, idle)
  advance spurious s (enqueue_start x) = (s, enqueue_test x s.queue.enqueue_pos)
  advance spurious s (enqueue_test x pos) =
      if is_zero (enqueue_dif s.queue pos)
      then (s, enqueue_cas x pos)
      else if is_neg (enqueue_dif s.queue pos)
      then (s, enqueue_done false)
      else (s, enqueue_start x)
  advance spurious s (enqueue_cas x pos) =
      if (s.queue.enqueue_pos == pos) && not spurious
      then (do_claim_enqueue s x pos, enqueue_write x pos)
      else (s, enqueue_test x s.queue.enqueue_pos)
  advance spurious s (enqueue_write x pos) = (do_write s x pos, enqueue_publish x pos)
  advance spurious s (enqueue_publish x pos) = (do_publish s pos, enqueue_done true)
  advance spurious s (enqueue_done ok) = (s, idle)
  advance spurious s dequeue_start = (s, dequeue_test s.queue.dequeue_pos)
  advance spurious s (dequeue_test pos) =
      if is_zero (dequeue_dif s.queue pos)
      then (s, dequeue_cas pos)
      else if is_neg (dequeue_dif s.queue pos)
      then (s, dequeue_done none)
      else (s, dequeue_start)
  advance spurious s (dequeue_cas pos) =
      if (s.queue.dequeue_pos == pos) && not spurious
      then (do_claim_dequeue s pos, dequeue_read pos)
      else (s, dequeue_test s.queue.dequeue_pos)
  advance spurious s (dequeue_read pos) = (s, dequeue_release pos (read_data s.queue pos))
  advance spurious s (dequeue_release pos x) = (do_release s x pos, dequeue_done (some x))
  advance spurious s (dequeue_done result) = (s, idle)

  -- A call begins only where no other is under way.
  pub turn : Turn A → Shared A → Pc A → Shared A × Pc A
  unfolding advance
  turn (call_enqueue x) s idle = (s, enqueue_start x)
  turn (call_enqueue x) s p = (s, p)
  turn call_dequeue s idle = (s, dequeue_start)
  turn call_dequeue s p = (s, p)
  turn (go spurious) s p = advance spurious s p

pub record System (A : Type 0) : Type 0 where
  pub shared : Shared A
  pub pc : ℕ → Pc A

module _ {A : Type 0} where
  pub step : ℕ × Turn A → System A → System A
  unfolding turn
  step (i, t) s =
      let (m, p) = turn t s.shared (s.pc i) in record { shared = m; pc = update s.pc i p }

  -- A schedule names, step by step, a thread and its turn.
  pub run : List (ℕ × Turn A) → System A → System A
  unfolding step
  run [] s = s
  run (e ∷ es) s = run es (step e s)

  -- A fresh queue, and no call under way.
  abbrev pub start : Mpmc A → A → System A
  start q blank = record {
    shared = record { queue = q; sent = λ _. blank; received = [] };
    pc = λ _. Pc.idle;
  }
