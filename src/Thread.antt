-- ===== src/Thread.antt =====
-- code/fiber/Thread.cpp: `Thread::Spawn`, which starts a thread before it knows the thread's number,
-- and `LaunchThread` with `WaitForReady`, with which the new thread begins. The two are interleaved;
-- a step is one access to the lock or to `_id`, or one call of the operating system.
pub mod Handshake
pub mod Tests
use nomad_tasks.Prelude.{
  ℕ, ◌-◌, ◌^◌, Bool, true, false, not, Option, some, none, List, [], ◌∷◌, if◌then◌else◌, ◌==◌,
}

-- `UINT32_MAX`
abbrev pub no_id : ℕ
no_id = 2 ^ 32 - 1

-- `HasSpawned`
abbrev pub has_spawned : ℕ → Bool
has_spawned id = not (id == no_id)

-- Where `Spawn` stands.
pub data Parent : Type 0 where
  begins : Parent  -- before `_handle`, `_id`, `_callback` and `_userdata` are set
  locks : Parent  -- before `_startupIdMutex` is taken
  creates : Parent  -- before `CreateThread`
  stores : Parent  -- within it, before the number is written
  unlocks : Parent
  notifies : Parent
  spawned : (ok : Bool) → Parent

-- Where the new thread stands, from `LaunchThread` on.
pub data Child : Type 0 where
  unborn : Child
  launched : Child
  throws : Child  -- the exception of a null callback
  waits_ready : Child  -- before `WaitForReady` takes `_startupIdMutex`
  reads : Child  -- before it reads `_id`
  leaves : Child  -- before it gives the lock back and returns
  unlocks_to_wait : Child  -- before it gives the lock back and waits
  waits : Child  -- in `_cvReceivedId.wait`
  calls : Child  -- in the callback

pub data Holder : Type 0 where
  nobody : Holder
  the_parent : Holder
  the_child : Holder

pub record Startup : Type 0 where
  pub parent : Parent
  pub child : Child
  pub lock : Holder
  pub id : ℕ

-- `lock_guard`
abbrev pub if_free : Holder → Startup → Startup → Startup
if_free nobody taken s = taken
if_free _ taken s = s

-- What `notify_all` does to the new thread.
abbrev pub notified : Child → Child
notified waits = calls
notified c = c

-- A step of `Spawn`, where the operating system gives the number `created`, or no thread.
pub parent_step : Option ℕ → Parent → Startup → Startup
parent_step created begins s = record s { parent = locks; id = no_id }
parent_step created locks s = if_free s.lock (record s { parent = creates; lock = the_parent }) s
parent_step (some n) creates s = record s { parent = stores; child = launched }
parent_step none creates s = record s { parent = unlocks }
parent_step (some n) stores s = record s { parent = unlocks; id = n }
parent_step none stores s = s
parent_step created unlocks s = record s { parent = notifies; lock = nobody }
parent_step created notifies s = record s {
  parent = spawned (has_spawned s.id);
  child = notified s.child;
}
parent_step created (spawned ok) s = s

-- A step of the new thread, with callback `callback` (`false` for `nullptr`).
pub child_step : Bool → Child → Startup → Startup
child_step callback unborn s = s
child_step callback launched s = record s { child = if callback then waits_ready else throws }
child_step callback throws s = s
child_step callback waits_ready s = if_free s.lock (record s { child = reads; lock = the_child }) s
child_step callback reads s = record s {
  child = if has_spawned s.id then leaves else unlocks_to_wait;
}
child_step callback leaves s = record s { child = calls; lock = nobody }
child_step callback unlocks_to_wait s = record s { child = waits; lock = nobody }
child_step callback waits s = s
child_step callback calls s = s

-- A schedule says, step by step, whether the parent goes on.
pub step : Bool → Option ℕ → Bool → Startup → Startup
unfolding parent_step child_step
step callback created true s = parent_step created s.parent s
step callback created false s = child_step callback s.child s

pub run : Bool → Option ℕ → List Bool → Startup → Startup
unfolding step
run callback created [] s = s
run callback created (e ∷ es) s = run callback created es (step callback created e s)

-- `Spawn` on a thread object with the number `old`.
abbrev pub start : ℕ → Startup
start old = record { parent = begins; child = unborn; lock = nobody; id = old }
