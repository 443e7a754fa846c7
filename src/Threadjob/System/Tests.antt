-- ===== src/Threadjob/System/Tests.antt =====
-- A job system with three jobs.
use mathlib.Core.List.{map}
use nomad_tasks.Prelude.{
  ℕ, ◌≡◌, refl, true, false, some, none, List, [], ◌∷◌, length, if◌then◌else◌, ◌==◌, arith,
}
use nomad_tasks.Threadjob.{Job, execute, make, add, World, new_job}
use nomad_tasks.Threadjob.System.{JobSystem, empty_system, add_new, run}
use nomad_tasks.Threadjob.System.Refine.{Refers, run_list, run_refines}
use nomad_tasks.Threadjob.System.Ignored.{forget, run-forget}

-- The world logs the callbacks. Callback 1 asks to add callback 9, and none is done with its job.
abbrev logging : World ℕ (List ℕ)
logging = record {
  call = λ f w. (false, if f == 1 then add 9 true ∷ [] else [], f ∷ w);
  clock = λ w. (length w, w);
}

-- A job whose callback returns no `bool`, one whose callback does, and one that starts later.
abbrev later : Job ℕ
later = record (new_job 3 true) { window = some (record { start = 5; stop = 8 }) }

abbrev three : JobSystem ℕ
three = add_new later (add_new (new_job 2 true) (add_new (new_job 1 false) empty_system))

abbrev three_jobs : List (Job ℕ)
three_jobs = new_job 1 false ∷ new_job 2 true ∷ later ∷ []

three-Refers : Refers three three.jobs three_jobs
three-Refers = (
  refl,
  omega arith,
  (λ e. omega arith, (λ e. omega arith, tt)),
  (refl, omega arith, (λ e. omega arith, tt), (refl, omega arith, tt, tt)),
)

-- The first job goes and leaves callback 9 behind; the others stay.
run_three :
    run_list logging three_jobs []
    ≡ (new_job 9 true ∷ record (new_job 2 true) { result = false } ∷ later ∷ [], 2 ∷ 1 ∷ [])
unfolding run_list execute make
run_three = refl

run_refines_example :
    (s' : JobSystem ℕ) × (run logging (three, []) ≡ some (s', (run_list logging three_jobs []).1))
    × Refers s' s'.jobs (run_list logging three_jobs []).0
run_refines_example = run_refines logging three [] three_jobs three-Refers

-- The same, where callback 7 was to follow callback 1, and the late job was to end sooner.
abbrev followed_jobs : List (Job ℕ)
followed_jobs =
    record (new_job 1 false) { next = some 3 }
    ∷ new_job 2 true
    ∷ record later { window = some (record { start = 5; stop = 6 }) }
    ∷ []

abbrev followed : JobSystem ℕ
followed = record three {
  object = λ i.
      if i == 0
      then some (record (new_job 1 false) { next = some 3 })
      else if i == 1
      then some (new_job 2 true)
      else if i == 2
      then some (record later { window = some (record { start = 5; stop = 6 }) })
      else if i == 3
      then some (new_job 7 false)
      else none;
  next_object = 4;
}

followed-Refers : Refers followed followed.jobs followed_jobs
followed-Refers = (
  refl,
  omega arith,
  (λ e. omega arith, (λ e. omega arith, tt)),
  (refl, omega arith, (λ e. omega arith, tt), (refl, omega arith, tt, tt)),
)

run-forget_example :
    (s' t' : JobSystem ℕ) × (w' : List ℕ) × (js' ks' : List (Job ℕ)) × (run logging (three, [])
      ≡ some (s', w'))
    × (run logging (followed, []) ≡ some (t', w'))
    × Refers s' s'.jobs js'
    × Refers t' t'.jobs ks'
    × (map forget js' ≡ map forget ks')
run-forget_example =
    run-forget logging three followed [] three_jobs followed_jobs three-Refers followed-Refers refl
