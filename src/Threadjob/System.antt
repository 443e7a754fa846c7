-- ===== src/Threadjob/System.antt =====
-- `JobSystem` (threadjob/Manager.h): its list of jobs and the objects that it refers to. `none` is a
-- fault: the use of an object that is not there.
pub mod Refine
pub mod Ignored
pub mod Tests
use nomad_tasks.Prelude.{
  ◌>>=◌, ℕ, ◌+◌, Bool, true, false, Option, some, none, List, [], ◌∷◌, ◌++◌, if◌then◌else◌, update,
  leb,
}
use nomad_tasks.Threadjob.{Window, Job, Request, World, Executed, execute, new_job, make}

-- Objects are numbered in the order of their `new`.
pub record JobSystem (F : Type 0) : Type 0 where
  pub jobs : List ℕ
  pub object : ℕ → Option (Job F)
  pub next_object : ℕ

module _ {F : Type 0} where
  abbrev pub empty_system : JobSystem F
  empty_system = record { jobs = []; object = λ _. none; next_object = 0 }

  -- `AddInternal(IJob*)`, which `Add(IJob*)` calls.
  abbrev pub add_job : ℕ → JobSystem F → JobSystem F
  add_job i s = record s { jobs = s.jobs ++ (i ∷ []) }

  abbrev pub set_object : ℕ → Option (Job F) → JobSystem F → JobSystem F
  set_object i o s = record s { object = update s.object i o }

  -- `new`
  abbrev pub allocate : Job F → JobSystem F → JobSystem F
  allocate j s = record s {
    object = update s.object s.next_object (some j);
    next_object = s.next_object + 1;
  }

  -- `AddInternal(std::function)`, and the ends of the calls with times.
  abbrev pub add_new : Job F → JobSystem F → JobSystem F
  add_new j s = add_job s.next_object (allocate j s)

  -- `Reset`
  abbrev pub reset : JobSystem F → JobSystem F
  reset s = record s { jobs = [] }

  -- `IJob::then`
  pub then_job : ℕ → F → Bool → JobSystem F → Option (JobSystem F)
  then_job i f b s = do
    j ← s.object i
    some (set_object i (some (record j { next = some s.next_object })) (allocate (new_job f b) s))

module _ {F W : Type 0} (env : World F W) where
  -- The requests of a callback, in their order.
  pub answer : List (Request F) → JobSystem F × W → JobSystem F × W
  answer [] (s, w) = (s, w)
  answer (r ∷ rs) (s, w) = let (j, w') = make env r w in answer rs (add_new j s, w')

  -- What follows the execution of job `i` in `Run`: `delete job`, or `Add(job)`.
  pub keep_or_delete : Bool → ℕ → JobSystem F → JobSystem F
  keep_or_delete true i s = set_object i none s
  keep_or_delete false i s = add_job i s

  -- One round of the loop in `Run`. The object has changed by the time its callback comes back.
  pub run_one : ℕ → JobSystem F × W → Option (JobSystem F × W)
  unfolding answer keep_or_delete
  run_one i (s, w) = do
    j ← s.object i
    let x = execute env j w
    let (s', w') = answer x.requests (set_object i (some x.job) s, x.world)
    some (keep_or_delete x.removed i s', w')

  pub run_jobs : List ℕ → JobSystem F × W → Option (JobSystem F × W)
  run_jobs [] sw = some sw
  run_jobs (i ∷ is) sw = run_one i sw >>= run_jobs is

  -- `Run`: the list is swapped out first, so jobs that are added meanwhile wait for the next `Run`.
  pub run : JobSystem F × W → Option (JobSystem F × W)
  unfolding run_one run_jobs
  run (s, w) = run_jobs s.jobs (record s { jobs = [] }, w)

  -- `operator()`, by `Job::Run`, of job `i`.
  pub should_remove : Option Window → Job F → W → Bool × W
  should_remove none j w = (j.result, w)
  should_remove (some d) j w = let (t, w') = env.clock w in (leb d.stop t, w')

  pub add_next : Option ℕ → JobSystem F → JobSystem F
  add_next none s = s
  add_next (some n) s = add_job n s

  pub invoke : ℕ → JobSystem F × W → Option (Bool × JobSystem F × W)
  unfolding answer should_remove add_next
  invoke i (s, w) = do
    j ← s.object i
    let x = execute env j w
    let (s', w₁) = answer x.requests (set_object i (some x.job) s, x.world)
    j' ← s'.object i
    let (r, w₂) = should_remove j'.window j' w₁
    some (if x.removed then (r, add_next j'.next s', w₂) else (false, s', w₁))
