-- ===== src/Manager/Blocking.antt =====
-- `WaitForCounter`, blocking, with the job that it schedules, `WaitForCounter_Proxy` (ManagerJobs.cpp),
-- on two threads. A step is one test, one call, or the wait on the condition variable; `Turn` also lets
-- the counter come to its target value, or leave it.
pub mod Lost
pub mod Tests
use nomad_tasks.Prelude.{Bool, true, false, List, [], ◌∷◌, if◌then◌else◌}

-- Where the caller stands.
pub data Caller : Type 0 where
  tests : Caller  -- before the first look at the counter
  tests_again : Caller  -- in the branch for `blocking`
  schedules : Caller  -- before `ScheduleJob`
  locks : Caller  -- before it takes its own mutex
  waits : Caller  -- in `cv.wait`
  returned : Caller
  thrown : Caller  -- the exception of `ScheduleJob`

-- Where the job stands.
pub data Proxy : Type 0 where
  unborn : Proxy
  queued : Proxy
  in_wait : Proxy  -- in its own `WaitForCounter`, not blocking
  notifies : Proxy  -- before `notify_all`
  finished : Proxy

pub data Turn : Type 0 where
  -- `room`: `ScheduleJob` finds room in its queue; `spurious`: `cv.wait` returns with no notification
  of_caller : (room spurious : Bool) → Turn
  of_proxy : Turn
  of_counter : (reached : Bool) → Turn

pub record Blocking : Type 0 where
  pub caller : Caller
  pub proxy : Proxy
  pub reached : Bool  -- the counter has its target value

abbrev pub go_to : Caller → Blocking → Blocking
go_to c s = record s { caller = c }

-- `notify_all`
abbrev pub notified : Caller → Caller
notified waits = returned
notified c = c

pub caller_step : Bool → Bool → Caller → Blocking → Blocking
caller_step room spurious tests s = go_to (if s.reached then returned else tests_again) s
caller_step room spurious tests_again s = go_to (if s.reached then returned else schedules) s
caller_step true spurious schedules s = record s { caller = locks; proxy = queued }
caller_step false spurious schedules s = go_to thrown s
caller_step room spurious locks s = go_to waits s
caller_step room spurious waits s = go_to (if spurious then returned else waits) s
caller_step room spurious returned s = s
caller_step room spurious thrown s = s

pub proxy_step : Proxy → Blocking → Blocking
proxy_step unborn s = s
proxy_step queued s = record s { proxy = in_wait }
proxy_step in_wait s = record s { proxy = if s.reached then notifies else in_wait }
proxy_step notifies s = record s { proxy = finished; caller = notified s.caller }
proxy_step finished s = s

pub step : Turn → Blocking → Blocking
unfolding caller_step proxy_step
step (of_caller room spurious) s = caller_step room spurious s.caller s
step of_proxy s = proxy_step s.proxy s
step (of_counter b) s = record s { reached = b }

pub run : List Turn → Blocking → Blocking
unfolding step
run [] s = s
run (e ∷ es) s = run es (step e s)

-- The call, on a counter that does not have its target value.
abbrev pub start : Blocking
start = record { caller = tests; proxy = unborn; reached = false }
