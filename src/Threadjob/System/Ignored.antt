-- ===== src/Threadjob/System/Ignored.antt =====
-- What `Run` (threadjob/Manager.h) does not look at: the job that `then` attaches, and the end of a
-- delayed job.
use mathlib.Core.List.{map, map-append}
use nomad_tasks.Prelude.{
  ◌≡◌, refl, sym, ap, ap₂, ◌∙◌, Bool, true, false, Option, some, none, List, [], ◌∷◌, ◌++◌, ltb,
  Bool-cases, inl, inr,
}
use nomad_tasks.Threadjob.{Window, Job, World, Executed, execute, execute_in, execute_job}
use nomad_tasks.Threadjob.System.{JobSystem, run}
use nomad_tasks.Threadjob.System.Refine.{Refers, made, kept, after, run_list, run_refines}

-- A job without its end and the job attached to it.
abbrev pub started_only : Option Window → Option Window
started_only none = none
started_only (some d) = some (record d { stop = 0 })

abbrev pub forget : {F : Type 0} → Job F → Job F
forget j = record j { window = started_only j.window; next = none }

started_only_twice : (o : Option Window) → started_only (started_only o) ≡ started_only o
started_only_twice none = refl
started_only_twice (some d) = refl

forget_result :
    {F : Type 0} (j : Job F) (r : Bool)
    → forget (record (forget j) { result = r }) ≡ forget (record j { result = r })
forget_result j r =
    ap (λ o. record j { result = r; window = o; next = none }) (started_only_twice j.window)

forget_twice : {F : Type 0} (j : Job F) → forget (forget j) ≡ forget j
forget_twice j = ap (λ o. record j { window = o; next = none }) (started_only_twice j.window)

module _ {F W : Type 0} (env : World F W) where
  abbrev Same : Executed F W → Executed F W → Type 0
  Same x y =
      (x.removed ≡ y.removed)
      × (forget x.job ≡ forget y.job)
      × (x.requests ≡ y.requests)
      × (x.world ≡ y.world)

  execute_job-forget :
      (j : Job F) (w : W) → Same (execute_job env (forget j) w) (execute_job env j w)
  unfolding execute_job
  execute_job-forget j w = elim (Bool-cases j.returns_bool) [
    | inl b ↦ rw b (refl, rw b at (forget_result j (env.call j.callback w).0), refl, refl)
    | inr b ↦ rw b (refl, rw b at (forget_twice j), refl, refl)
  ]

  execute_in-forget :
      (o : Option Window) (j : Job F) (w : W)
      → Same (execute_in env (started_only o) (forget j) w) (execute_in env o j w)
  unfolding execute_in
  execute_in-forget none j w = execute_job-forget j w
  execute_in-forget (some d) j w = elim (Bool-cases (ltb d.start (env.clock w).0)) [
    | inl late ↦ rw late (execute_job-forget j (env.clock w).1)
    | inr early ↦ rw early (refl, forget_twice j, refl, refl)
  ]

  execute-forget : (j : Job F) (w : W) → Same (execute env (forget j) w) (execute env j w)
  unfolding execute
  execute-forget j w = execute_in-forget j.window j w

  map-forget-kept :
      (b : Bool) (j k : Job F)
      → forget j ≡ forget k
      → map forget (kept env b j) ≡ map forget (kept env b k)
  map-forget-kept true j k e = refl
  map-forget-kept false j k e = ap (λ l. l ∷ []) e

  abbrev Alike : List (Job F) × W → List (Job F) × W → Type 0
  Alike x y = (map forget x.0 ≡ map forget y.0) × (x.1 ≡ y.1)

  map-forget-append :
      (xs ys xs' ys' : List (Job F))
      → map forget xs ≡ map forget xs'
      → map forget ys ≡ map forget ys'
      → map forget (xs ++ ys) ≡ map forget (xs' ++ ys')
  map-forget-append xs ys xs' ys' a b =
      map-append forget xs ys ∙ ap₂ ◌++◌ a b ∙ sym (map-append forget xs' ys')

  after-Alike :
      (x y : Executed F W) (k l : W → List (Job F) × W)
      → Same x y
      → ((w : W) → Alike (k w) (l w))
      → Alike (after env x k) (after env y l)
  unfolding after
  after-Alike x y k l (a, b, c, d) h =
      let m = made env y.requests y.world in
      rw (a, c, d)
        (
          map-forget-append m.0 _ m.0 _ refl (
              map-forget-append (kept env y.removed x.job) (k m.1).0 (kept env y.removed y.job)
                (l m.1).0 (map-forget-kept y.removed x.job y.job b) (h m.1).0),
          (h m.1).1,
        )

  -- What the list without ends and attached jobs comes to.
  run_list-forget :
      (js : List (Job F)) (w : W) → Alike (run_list env (map forget js) w) (run_list env js w)
  unfolding run_list
  run_list-forget [] w = (refl, refl)
  run_list-forget (j ∷ js) w =
      after-Alike (execute env (forget j) w) (execute env j w) (run_list env (map forget js))
        (run_list env js) (execute-forget j w) (run_list-forget js)

  -- Two systems whose jobs differ only in the jobs that `then` attached to them, and in the ends of
  -- delayed jobs, have the same `Run`: it leaves the state of all else the same, and jobs that again
  -- differ only so. Both lists refer to different objects.
  pub run-forget :
      (s t : JobSystem F) (w : W) (js ks : List (Job F))
      → Refers s s.jobs js
      → Refers t t.jobs ks
      → map forget js ≡ map forget ks
      → (s' t' : JobSystem F) × (w' : W) × (js' ks' : List (Job F)) × (run env (s, w)
          ≡ some (s', w'))
        × (run env (t, w) ≡ some (t', w'))
        × Refers s' s'.jobs js'
        × Refers t' t'.jobs ks'
        × (map forget js' ≡ map forget ks')
  run-forget s t w js ks hs ht e =
      let (s', a, x) = run_refines env s w js hs in
      let (t', b, y) = run_refines env t w ks ht in
      let (l, m) = run_list-forget js w in
      let (l', m') = run_list-forget ks w in
      let world : (run_list env ks w).1 ≡ (run_list env js w).1 =
        sym m' ∙ ap (λ z. (run_list env z w).1) (sym e) ∙ m in
      (
        s',
        t',
        (run_list env js w).1,
        (run_list env js w).0,
        (run_list env ks w).0,
        a,
        b ∙ ap (λ z. some (t', z)) world,
        x,
        y,
        sym l ∙ ap (λ z. map forget (run_list env z w).0) e ∙ l',
      )
