-- ===== src/Manager/Interleaved/Places.antt =====
-- Where each fiber is, and what that says of shared memory and of the threads.
use nomad_tasks.Prelude.{ℕ, ◌<◌, ◌≡◌, ◌≢◌, true, false, Option, none, some, List, [], ◌∷◌}
use nomad_tasks.Counter.{Ready}
use nomad_tasks.Manager.{Tls, FiberDestination, nowhere, to_waiting, to_pool}
use nomad_tasks.Manager.Interleaved.{System, Pc, outside, running, parting, entering, current}

-- In the pool; on a thread; on a thread that has entered it into a counter's slot with `flag`; left by
-- a thread that has not cleaned up yet, for the pool or waiting; or left, with its flag set.
pub data Place : Type 0 where
  pooled : Place
  runs : (thread : ℕ) → Place
  parts : (thread flag : ℕ) → Place
  left_pool : (thread : ℕ) → Place
  left_wait : (thread flag : ℕ) → Place
  asleep : (flag : ℕ) → Place

abbrev pub flag_of : Place → Option ℕ
flag_of (parts t k) = some k
flag_of (left_wait t k) = some k
flag_of (asleep k) = some k
flag_of _ = none

-- The fiber is with thread `t`.
abbrev pub Of : ℕ → Place → Type 0
Of t (runs u) = t ≡ u
Of t (parts u k) = t ≡ u
Of t (left_pool u) = t ≡ u
Of t (left_wait u k) = t ≡ u
Of t _ = ⊥

-- Where the entry of a fiber is.
pub data Spot : Type 0 where
  in_slot : Spot
  with_thread : ℕ → Spot

-- What is not in the program: the place of each fiber, the spot of its entry, and the fiber of each
-- flag.
pub record Ghost : Type 0 where
  pub place : ℕ → Place
  pub spot : ℕ → Spot
  pub whose : ℕ → ℕ

-- The fiber that the thread has left, by its destination.
abbrev pub Left : Ghost → ℕ → Tls → FiberDestination → Type 0
Left v t l nowhere = Unit {0}
Left v t l to_pool = v.place l.previous_fiber ≡ left_pool t
Left v t l to_waiting = v.place l.previous_fiber ≡ left_wait t l.previous_stored

abbrev pub ThreadFits : Ghost → ℕ → Tls → Pc → Type 0
ThreadFits v t l outside = l.previous_destination ≡ nowhere
ThreadFits v t l running = v.place l.current_fiber ≡ runs t
ThreadFits v t l parting =
    (v.place l.current_fiber ≡ parts t l.previous_stored)
    × (l.previous_fiber ≡ l.current_fiber)
    × (l.previous_destination ≡ to_waiting)
ThreadFits v t l entering = (v.place l.current_fiber ≡ runs t) × Left v t l l.previous_destination

-- What holds of fiber `f`, by its place.
abbrev pub FiberFits : {F : Type 0} → Ghost → System F → ℕ → Place → Type 0
FiberFits v s f pooled = s.shared.idle_fibers f ≡ true
FiberFits v s f (runs t) = s.shared.idle_fibers f ≡ false
FiberFits v s f (parts t k) =
    (s.shared.idle_fibers f ≡ false)
    × (s.shared.stored k ≡ false)
    × (k < s.shared.next_stored)
    × (v.whose k ≡ f)
    × (s.pc t ≡ parting)
    × (current s t ≡ f)
FiberFits v s f (left_pool t) =
    (s.shared.idle_fibers f ≡ false)
    × (s.pc t ≡ entering)
    × ((s.shared.tls t).previous_fiber ≡ f)
    × ((s.shared.tls t).previous_destination ≡ to_pool)
FiberFits v s f (left_wait t k) =
    (s.shared.idle_fibers f ≡ false)
    × (s.shared.stored k ≡ false)
    × (k < s.shared.next_stored)
    × (v.whose k ≡ f)
    × (s.pc t ≡ entering)
    × ((s.shared.tls t).previous_fiber ≡ f)
    × ((s.shared.tls t).previous_destination ≡ to_waiting)
FiberFits v s f (asleep k) =
    (s.shared.idle_fibers f ≡ false)
    × (s.shared.stored k ≡ true)
    × (k < s.shared.next_stored)
    × (v.whose k ≡ f)

-- No entry of the list is of fiber `f`.
abbrev pub NoEntry : ℕ → List Ready → Type 0
NoEntry f [] = Unit {0}
NoEntry f ((g, k) ∷ r) = (f ≢ g) × NoEntry f r

-- The entries of the list at a spot: of different fibers, with their flags.
abbrev pub Entries : Ghost → Spot → List Ready → Type 0
Entries v p [] = Unit {0}
Entries v p ((f, k) ∷ r) =
    (flag_of (v.place f) ≡ some k) × (v.spot f ≡ p) × NoEntry f r × Entries v p r

pub record Inv {F : Type 0} (v : Ghost) (s : System F) : Type 0 where
  pub threads : (t : ℕ) → ThreadFits v t (s.shared.tls t) (s.pc t)
  pub fibers : (f : ℕ) → FiberFits v s f (v.place f)
  pub slotted : Entries v in_slot s.slots
  pub readied : (t : ℕ) → Entries v (with_thread t) (s.shared.tls t).ready_fibers

-- There are places that fit.
abbrev pub Kept : {F : Type 0} → System F → Type 0
Kept s = (v : Ghost) × Inv v s
