-- ===== src/Manager/Interleaved.antt =====
-- Fibers that any number of threads take, leave and resume (Manager.cpp, ManagerJobs.cpp,
-- ManagerCallbacks.cpp), interleaved by a schedule. A step is the part of `FindFreeFiber`,
-- `GetNextJob`, `WaitForCounter` or `CleanupPreviousFiber` that other threads see at once. Of the
-- counters this keeps the entries that stand in their slots: `wait` adds one, and `wake` lets a thread
-- take any one out and make its fiber ready, as `CheckWaitingFibers` does. A call of
-- `AddWaitingFiber` that ends at once is `goes_on`, which may go astray, as in
-- Counter/Interleaved/Reuse.antt: its fiber is ready all the same, and another entry is gone.
pub mod Places
pub mod Entries
pub mod Frame
pub mod Steps
pub mod Taking
pub mod Entering
pub mod Leaving
pub mod Waiting
pub mod Turns
pub mod Ownership
pub mod Stale
pub mod Tests
use nomad_tasks.Prelude.{
  ℕ, zero, suc, ◌+◌, ◌≡◌, Bool, true, false, ◌&&◌, ◌||◌, Option, none, some, List, [], ◌∷◌, ◌++◌,
  get_elem?, ltb, if◌then◌else◌, update,
}
use nomad_tasks.Counter.{Ready}
use nomad_tasks.Manager.{Manager, Tls, set_tls}
use nomad_tasks.Manager.Fibers.{take_fiber, cleanup_previous_fiber}
use nomad_tasks.Manager.Jobs.{take_ready, resuming, leaving, new_flag}

-- Where a thread stands.
pub data Pc : Type 0 where
  outside : Pc  -- before its first `FindFreeFiber`
  running : Pc  -- in the worker's loop or in a job
  parting : Pc  -- in `WaitForCounter`, before a compare-exchange of `FindFreeFiber` succeeds
  entering : Pc  -- just switched to its current fiber, before `CleanupPreviousFiber`

-- Where a fiber was left: not begun, in `WaitForCounter`, or in `GetNextJob`, whose `tls` is then
-- still that of the thread that left it.
pub data LeftAt : Type 0 where
  anew : LeftAt
  in_wait : LeftAt
  in_next : (thread : ℕ) → LeftAt

pub record System (F : Type 0) : Type 0 where
  pub shared : Manager F
  pub slots : List Ready
  pub left_at : ℕ → LeftAt
  pub pc : ℕ → Pc

-- What the schedule lets a thread do.
pub data Turn : Type 0 where
  begin : (fiber : ℕ) → Turn  -- `ThreadCallback_Worker`, which finds the fiber
  enter : Turn  -- the end of a switch, with `CleanupPreviousFiber`
  next : (high : Bool) → Turn  -- `GetNextJob`, which finds a job of high priority or none
  wait : Turn  -- `WaitForCounter`, up to its update of the thread's record
  -- `WaitForCounter` where `AddWaitingFiber` gives back true. `astray` says, where that is so, on which
  -- thread its fiber is ready nevertheless, and which entry has lost its slot.
  goes_on : (astray : Option (ℕ × ℕ)) → Turn
  find : (fiber : ℕ) → Turn  -- its `FindFreeFiber`, which finds the fiber, and switch
  wake : (entry : ℕ) → Turn  -- `CheckWaitingFibers`, of an entry in a slot

-- The thread whose record `CleanupPreviousFiber` goes by.
abbrev pub cleans : LeftAt → ℕ → ℕ
cleans anew t = t
cleans in_wait t = t
cleans (in_next u) t = u

module _ {A : Type 0} where
  -- A list without its element `i`.
  abbrev pub without : ℕ → List A → List A
  without i [] = []
  without zero (x ∷ xs) = xs
  without (suc i) (x ∷ xs) = x ∷ without i xs

module _ {F : Type 0} where
  abbrev pub current : System F → ℕ → ℕ
  current s t = (s.shared.tls t).current_fiber

  -- Fiber `g` can be found by `FindFreeFiber`.
  abbrev pub available : System F → ℕ → Bool
  available s g = ltb g s.shared.num_fibers && s.shared.idle_fibers g

  abbrev pub move : ℕ → Pc → Manager F → System F → System F
  move t p m s = record s { shared = m; pc = update s.pc t p }

  -- Thread `t` takes fiber `g` out of the pool and switches to it.
  abbrev pub switch_to : ℕ → ℕ → Manager F → Manager F
  switch_to t g m = set_tls t (record (m.tls t) { current_fiber = g }) (take_fiber g m)

  abbrev pub resume_first : ℕ → Option (ℕ × List Ready) → System F → System F
  resume_first t none s = s
  resume_first t (some (f, rest)) s =
      record (move t entering (set_tls t (resuming f rest (s.shared.tls t)) s.shared) s) {
        left_at = update s.left_at (current s t) (in_next t);
      }

  -- An entry whose fiber waits, or is about to; `go_astray` is what else may become of one.
  abbrev pub make_ready : ℕ → ℕ → Option Ready → System F → System F
  make_ready t i none s = s
  make_ready t i (some e) s =
      let l = s.shared.tls t in
      record s {
        shared = set_tls t (record l { ready_fibers = l.ready_fibers ++ (e ∷ []) }) s.shared;
        slots = without i s.slots;
      }

  -- The fiber of thread `t`, which goes on, is among the ready ones of thread `u`, and entry `i` is gone.
  abbrev pub go_astray : ℕ → ℕ → ℕ → System F → System F
  go_astray t u i s =
      let flag = s.shared.next_stored in
      let l = s.shared.tls u in
      record s {
        shared =
            set_tls u (record l { ready_fibers = l.ready_fibers ++ ((current s t, flag) ∷ []) })
              (new_flag s.shared);
        slots = without i s.slots;
      }

  -- A turn of thread `t`; one that does not fit where the thread stands changes nothing.
  unfoldable pub turn : ℕ → Turn → Pc → System F → System F
  turn t (begin g) outside s =
      if available s g then move t entering (switch_to t g s.shared) s else s
  turn t enter entering s =
      move t running (cleanup_previous_fiber (cleans (s.left_at (current s t)) t) s.shared) s
  turn t (next high) running s =
      if (s.shared.tls t).is_io || high
      then s
      else resume_first t (take_ready s.shared.stored (s.shared.tls t).ready_fibers) s
  turn t (goes_on (some (u, i))) running s = go_astray t u i s
  turn t wait running s =
      let flag = s.shared.next_stored in
      record (move t parting (set_tls t (leaving flag (s.shared.tls t)) (new_flag s.shared)) s) {
        slots = s.slots ++ ((current s t, flag) ∷ []);
      }
  turn t (find g) parting s =
      if available s g
      then record (move t entering (switch_to t g s.shared) s) {
        left_at = update s.left_at (current s t) in_wait;
      }
      else s
  turn t (wake i) running s = make_ready t i (get_elem? s.slots i) s
  turn t a p s = s

  unfoldable pub step : ℕ × Turn → System F → System F
  unfolding turn
  step (t, a) s = turn t a (s.pc t) s

  unfoldable pub run : List (ℕ × Turn) → System F → System F
  unfolding step
  run [] s = s
  run (e ∷ es) s = run es (step e s)

  -- No thread has begun.
  abbrev pub start : Manager F → System F
  start m = record { shared = m; slots = []; left_at = λ _. anew; pc = λ _. outside }

  -- A fiber that was left in `GetNextJob` is entered by the thread that left it, and a fiber that goes on
  -- is not ready.
  abbrev pub AtHome : ℕ × Turn → System F → Type 0
  AtHome (t, enter) s = cleans (s.left_at (current s t)) t ≡ t
  AtHome (t, goes_on (some x)) s = ⊥
  AtHome (t, a) s = Unit {0}

  abbrev pub Homebound : List (ℕ × Turn) → System F → Type 0
  unfolding step
  Homebound [] s = Unit {0}
  Homebound (e ∷ es) s = AtHome e s × Homebound es (step e s)
