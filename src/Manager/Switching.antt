-- ===== src/Manager/Switching.antt =====
-- The switches of threads that take and leave fibers (Manager/Interleaved.antt), with the fiber objects
-- that they go through: each is `tls->_threadFiber.SwitchTo(&_fibers[tls->_currentFiberIndex], this)`,
-- in Manager.cpp, ManagerJobs.cpp and ManagerCallbacks.cpp.
pub mod Returns
pub mod Tests
use nomad_tasks.Prelude.{◌>>=◌, ℕ, Option, none, some, List, [], ◌∷◌, Bool, true, false}
use nomad_tasks.Fiber.{
  FiberName, of_thread, of_pool, Fibers, Ended, returns, switches, throws_invalid, throws_unable,
  switch_to,
}
use nomad_tasks.Manager.{Manager}
use nomad_tasks.Manager.Interleaved as Interleaved
use nomad_tasks.Manager.Interleaved.{System, Turn, current}
use nomad_tasks.Manager.Interleaved.Turns.{is_switch}

pub record Switching (F C : Type 0) : Type 0 where
  pub system : System F
  pub fibers : Fibers C

module _ {F C : Type 0} where
  -- The state after a switch; `none` is an exception.
  abbrev pub landed : Ended (Fibers C) → System F → Option (Switching F C)
  landed (switches h fs) s = some (record { system = s; fibers = fs })
  landed _ s = none

  -- `SwitchTo` to the current fiber of thread `t`, with the manager `self`.
  pub go_to_current : ℕ → ℕ → System F → Fibers C → Option (Switching F C)
  unfolding switch_to
  go_to_current self t s fs =
      landed (switch_to (of_thread t) (some (of_pool (current s t))) (some self) fs) s

  abbrev pub if_switch : Bool → ℕ → ℕ → System F → Fibers C → Option (Switching F C)
  if_switch true self t s fs = go_to_current self t s fs
  if_switch false self t s fs = some (record { system = s; fibers = fs })

  pub step : ℕ → ℕ × Turn → Switching F C → Option (Switching F C)
  unfolding go_to_current
  step self (t, a) x =
      let s = Interleaved.step (t, a) x.system in
      if_switch (is_switch (x.system.pc t) (s.pc t)) self t s x.fibers

  pub run : ℕ → List (ℕ × Turn) → Switching F C → Option (Switching F C)
  unfolding step
  run self [] x = some x
  run self (e ∷ es) x = step self e x >>= run self es
