-- ===== src/JobBuffer.antt =====
-- The buffer of a `JobInfo` (code/fiber/include/fiber/Job.h), which holds a delegate: its copies, its
-- assignment and its destructor, and the copies that the program makes between `ScheduleJob` with a
-- call (Manager.h), the queue's cells (detail/mpmc_queue.h) and `JobInfo::Execute` (Job.cpp). A job is
-- a `Job` of Manager.antt, whose callback is the delegate in the buffer, `none` for a null buffer.
pub mod Late
pub mod Tests
use nomad_tasks.Prelude.{
  ℕ, Bool, true, false, Option, some, none, List, [], ◌∷◌, ◌++◌, update, is_some, not,
}
use nomad_tasks.Manager.{Job, blank_job}

-- What happens to a delegate.
pub data Event (D : Type 0) : Type 0 where
  destroyed : D → Event D  -- `~base_delegate`
  called : D → Event D  -- `Call`

-- The program's objects: the cells of a queue, the `JobInfo job` of each worker, and what has happened,
-- the last event first.
pub record Buffers (D : Type 0) : Type 0 where
  pub cell : ℕ → Job D
  pub worker : ℕ → Job D
  pub events : List (Event D)

pub data Op (D : Type 0) : Type 0 where
  schedule : (cell : ℕ) (delegate : D) (counter : Option ℕ) → Op D
  take : (worker cell : ℕ) → Op D
  execute : (worker : ℕ) → Op D

module _ {D : Type 0} where
  -- `IsNull`
  abbrev pub is_null : Job D → Bool
  is_null j = not (is_some j.callback)

  -- What `Reset` does to the delegate in the buffer.
  abbrev pub reset_events : Option D → List (Event D)
  reset_events none = []
  reset_events (some d) = destroyed d ∷ []

  -- `Reset`
  abbrev pub reset : Job D → List (Event D) × Job D
  reset j = (reset_events j.callback, record j { callback = none })

  -- The copy constructors, which copy the bytes of the buffer.
  abbrev pub copy : Job D → Job D
  copy other = record { callback = other.callback; counter = other.counter }

  -- `operator=` of another object.
  abbrev pub assign : Job D → Job D → List (Event D) × Job D
  assign j other =
      let (es, j') = reset j in
      (es, record j' { callback = other.callback; counter = other.counter })

  -- `~JobInfo`
  abbrev pub destruct : Job D → List (Event D)
  destruct j = let (es, j') = reset j in es

  -- What `Execute` does with the buffer.
  abbrev pub call_events : Option D → List (Event D)
  call_events none = []
  call_events (some d) = called d ∷ []

  -- `cell->data_ = data` in `enqueue`
  abbrev pub put_cell : ℕ → Job D → Buffers D → Buffers D
  put_cell c other s =
      let (es, cell') = assign (s.cell c) other in
      record s { cell = update s.cell c cell'; events = es ++ s.events }

  -- `ScheduleJob` with a call, which makes a job and destroys it once it has been put into the cell.
  abbrev pub schedule_call : ℕ → D → Option ℕ → Buffers D → Buffers D
  schedule_call c d counter s =
      let made : Job D = record { callback = some d; counter = counter } in
      let s' = put_cell c made s in record s' { events = destruct made ++ s'.events }

  -- `data = cell->data_` in `dequeue`, for a worker's job
  abbrev pub take_cell : ℕ → ℕ → Buffers D → Buffers D
  take_cell w c s =
      let (es, worker') = assign (s.worker w) (s.cell c) in
      record s { worker = update s.worker w worker'; events = es ++ s.events }

  -- `Execute` of a worker's job
  abbrev pub call_worker : ℕ → Buffers D → Buffers D
  call_worker w s = record s { events = call_events (s.worker w).callback ++ s.events }

  pub step : Op D → Buffers D → Buffers D
  step (schedule c d counter) s = schedule_call c d counter s
  step (take w c) s = take_cell w c s
  step (execute w) s = call_worker w s

  pub run : List (Op D) → Buffers D → Buffers D
  unfolding step
  run [] s = s
  run (o ∷ os) s = run os (step o s)

  -- Default-constructed jobs.
  abbrev pub start : Buffers D
  start = record { cell = λ _. blank_job; worker = λ _. blank_job; events = [] }
