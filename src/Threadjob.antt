-- ===== src/Threadjob.antt =====
-- code/threadjob: the job system without fibers (include/threadjob/Manager.h, Job.h, DelayedJob.h,
-- IJob.h, and Manager.cpp). Jobs are objects that the system's list refers to by number.
pub mod System
pub mod Traits
use nomad_tasks.Prelude.{
  ℕ, ◌+◌, Bool, true, false, Option, some, none, List, [], ◌∷◌, ltb, leb, if◌then◌else◌,
}

-- The times of a `DelayedJob`, in milliseconds.
pub record Window : Type 0 where
  pub start : ℕ
  pub stop : ℕ  -- `_end`

-- `Job<_Ret>`, and with a window `DelayedJob<_Ret>`, for a type `F` of callbacks. `returns_bool` says
-- whether `_Ret` is `bool`; `next` is the number of the job that `then` made, `none` for `nullptr`.
pub record Job (F : Type 0) : Type 0 where
  pub callback : F
  pub returns_bool : Bool
  pub result : Bool  -- `_resultK`
  pub window : Option Window
  pub next : Option ℕ

-- What a callback may ask of the job system that it stands in: `Add` or `AddJob`, and the three calls
-- with times.
pub data Request (F : Type 0) : Type 0 where
  add : (callback : F) (returns_bool : Bool) → Request F
  add_for : (callback : F) (returns_bool : Bool) (for_ : ℕ) → Request F
  add_delayed : (callback : F) (returns_bool : Bool) (in_ : ℕ) → Request F
  add_delayed_for : (callback : F) (returns_bool : Bool) (in_ for_ : ℕ) → Request F

-- What the program does not implement: the callbacks, which give a result (that counts if it is a
-- `bool`) and their requests, and the clock. `W` is the state of all else.
pub record World (F W : Type 0) : Type 0 where
  pub call : F → W → Bool × List (Request F) × W
  pub clock : W → ℕ × W

-- What one execution leaves: whether the job goes, the job, the callback's requests, and the world.
pub record Executed (F W : Type 0) : Type 0 where
  pub removed : Bool
  pub job : Job F
  pub requests : List (Request F)
  pub world : W

-- `Job(fn)`
abbrev pub new_job : {F : Type 0} → F → Bool → Job F
new_job f b = record { callback = f; returns_bool = b; result = true; window = none; next = none }

module _ {F W : Type 0} (env : World F W) where
  -- `Job::Execute`, by `ExecuteInternal`.
  pub execute_job : Job F → W → Executed F W
  execute_job j w =
      let (r, asked, w') = env.call j.callback w in
      if j.returns_bool
      then record { removed = r; job = record j { result = r }; requests = asked; world = w' }
      else record { removed = true; job = j; requests = asked; world = w' }

  -- `DelayedJob::Execute`
  pub execute_delayed : Window → Job F → W → Executed F W
  unfolding execute_job
  execute_delayed d j w =
      let (t, w') = env.clock w in
      if ltb d.start t
      then execute_job j w'
      else record { removed = false; job = j; requests = []; world = w' }

  -- The virtual call `job->Execute()`.
  pub execute_in : Option Window → Job F → W → Executed F W
  unfolding execute_delayed
  execute_in none j w = execute_job j w
  execute_in (some d) j w = execute_delayed d j w

  pub execute : Job F → W → Executed F W
  unfolding execute_in
  execute j w = execute_in j.window j w

  -- `new DelayedJob` reads the clock twice.
  pub new_delayed : F → Bool → ℕ → ℕ → W → Job F × W
  new_delayed f b in_ for_ w =
      let (t, w₁) = env.clock w in
      let (t', w₂) = env.clock w₁ in
      (
        record (new_job f b) { window = some (record { start = t + in_; stop = t' + in_ + for_ }) },
        w₂,
      )

  -- The job that a request makes.
  pub make : Request F → W → Job F × W
  unfolding new_delayed
  make (add f b) w = (new_job f b, w)
  make (add_for f b for_) w = new_delayed f b 0 for_ w
  make (add_delayed f b in_) w = new_delayed f b in_ 0 w
  make (add_delayed_for f b in_ for_) w = new_delayed f b in_ for_ w
