-- ===== src/Threadjob/System/Refine.antt =====
-- `Run` of the job system (threadjob/Manager.h) against a list of jobs without objects.
use nomad_tasks.Prelude.{
  ℕ, ◌<◌, ◌≡◌, ◌≢◌, refl, sym, ◌∙◌, Bool, true, false, Option, some, none, List, [], ◌∷◌, ◌++◌,
  append_assoc, append-nil, update_self, update_ne, arith,
}
use nomad_tasks.Threadjob.{Job, Request, World, Executed, execute, make}
use nomad_tasks.Threadjob.System.{
  JobSystem, add_new, allocate, set_object, answer, keep_or_delete, run_one, run_jobs, run,
}

module _ {F W : Type 0} (env : World F W) where
  -- The specification: the jobs that the requests make, and what `Run` makes of a list of jobs.
  unfoldable pub made : List (Request F) → W → List (Job F) × W
  made [] w = ([], w)
  made (r ∷ rs) w = let (j, w₁) = make env r w in let (js, w₂) = made rs w₁ in (j ∷ js, w₂)

  abbrev pub kept : Bool → Job F → List (Job F)
  kept true j = []
  kept false j = j ∷ []

  -- What follows the execution of one job, where `rest` is what follows the others.
  unfoldable pub after : Executed F W → (W → List (Job F) × W) → List (Job F) × W
  unfolding made
  after x rest =
      let (news, w₁) = made x.requests x.world in
      let (later, w₂) = rest w₁ in (news ++ (kept x.removed x.job ++ later), w₂)

  unfoldable pub run_list : List (Job F) → W → List (Job F) × W
  unfolding after
  run_list [] w = ([], w)
  run_list (j ∷ js) w = after (execute env j w) (run_list js)

-- The number is none of the list's.
abbrev pub Fresh : ℕ → List ℕ → Type 0
Fresh i [] = Unit {0}
Fresh i (k ∷ ks) = (i ≢ k) × Fresh i ks

abbrev Apart : List ℕ → List ℕ → Type 0
Apart [] ks = Unit {0}
Apart (i ∷ is) ks = Fresh i ks × Apart is ks

Fresh-snoc : (i k : ℕ) (ks : List ℕ) → Fresh i ks → i ≢ k → Fresh i (ks ++ (k ∷ []))
Fresh-snoc i k [] h e = (e, tt)
Fresh-snoc i k (l ∷ ks) h e = (h.0, Fresh-snoc i k ks h.1 e)

Apart-snoc : (is ks : List ℕ) (k : ℕ) → Apart is ks → Fresh k is → Apart is (ks ++ (k ∷ []))
Apart-snoc [] ks k a f = tt
Apart-snoc (i ∷ is) ks k (a, rest) f =
    (Fresh-snoc i k ks a (λ same. f.0 (sym same)), Apart-snoc is ks k rest f.1)

module _ {F : Type 0} where
  -- The numbers are those of different objects, which hold the jobs.
  abbrev pub Refers : JobSystem F → List ℕ → List (Job F) → Type 0
  Refers s [] [] = Unit {0}
  Refers s [] (j ∷ js) = ⊥
  Refers s (i ∷ is) [] = ⊥
  Refers s (i ∷ is) (j ∷ js) =
      (s.object i ≡ some j) × (i < s.next_object) × Fresh i is × Refers s is js

  Refers-set :
      (s : JobSystem F) (i : ℕ) (o : Option (Job F)) (is : List ℕ) (js : List (Job F))
      → Fresh i is
      → Refers s is js
      → Refers (set_object i o s) is js
  Refers-set s i o [] [] f h = tt
  Refers-set s i o [] (j ∷ js) f h = h
  Refers-set s i o (k ∷ is) [] f h = h
  Refers-set s i o (k ∷ is) (j ∷ js) f (e, lt, g, rest) =
      (update_ne s.object o f.0 ∙ e, lt, g, Refers-set s i o is js f.1 rest)

  Refers-allocate :
      (s : JobSystem F) (n : Job F) (is : List ℕ) (js : List (Job F))
      → Refers s is js
      → Refers (allocate n s) is js
  Refers-allocate s n [] [] h = tt
  Refers-allocate s n [] (j ∷ js) h = h
  Refers-allocate s n (k ∷ is) [] h = h
  Refers-allocate s n (k ∷ is) (j ∷ js) (e, lt, g, rest) = (
    update_ne s.object (some n) (λ same. omega arith) ∙ e,
    omega arith,
    g,
    Refers-allocate s n is js rest,
  )

  Refers-snoc :
      (s : JobSystem F) (is : List ℕ) (js : List (Job F)) (i : ℕ) (j : Job F)
      → Refers s is js
      → s.object i ≡ some j
      → i < s.next_object
      → Fresh i is
      → Refers s (is ++ (i ∷ [])) (js ++ (j ∷ []))
  Refers-snoc s [] [] i j h e lt f = (e, lt, tt, tt)
  Refers-snoc s [] (k ∷ js) i j h e lt f = absurd h
  Refers-snoc s (k ∷ is) [] i j h e lt f = absurd h
  Refers-snoc s (k ∷ is) (l ∷ js) i j (a, b, c, d) e lt f =
      (a, b, Fresh-snoc k i is c (λ same. f.0 (sym same)), Refers-snoc s is js i j d e lt f.1)

  Fresh-new :
      (s : JobSystem F) (is : List ℕ) (js : List (Job F)) → Refers s is js → Fresh s.next_object is
  Fresh-new s [] js h = tt
  Fresh-new s (k ∷ is) [] h = absurd h
  Fresh-new s (k ∷ is) (j ∷ js) (e, lt, g, rest) = (λ same. omega arith, Fresh-new s is js rest)

  -- In the middle of `Run`: the list holds the jobs `done`, and the objects of the jobs `todo` that
  -- are still to be run are others.
  record Inv (s : JobSystem F) (is : List ℕ) (todo done : List (Job F)) : Type 0 where
    listed : Refers s s.jobs done
    pending : Refers s is todo
    apart : Apart is s.jobs

module _ {F W : Type 0} (env : World F W) where
  add_new-Inv :
      (s : JobSystem F) (n : Job F) (is : List ℕ) (todo done : List (Job F))
      → Inv s is todo done
      → Inv (add_new n s) is todo (done ++ (n ∷ []))
  add_new-Inv s n is todo done v = record {
    listed =
        Refers-snoc (allocate n s) s.jobs done s.next_object n
          (Refers-allocate s n s.jobs done v.listed) (update_self s.object s.next_object (some n))
          (omega arith) (Fresh-new s s.jobs done v.listed);
    pending = Refers-allocate s n is todo v.pending;
    apart = Apart-snoc is s.jobs s.next_object v.apart (Fresh-new s is todo v.pending);
  }

  answer-Inv :
      (rs : List (Request F)) (s : JobSystem F) (w : W) (is : List ℕ) (todo done : List (Job F))
      → Inv s is todo done
      → ((answer env rs (s, w)).1 ≡ (made env rs w).1)
        × Inv (answer env rs (s, w)).0 is todo (done ++ (made env rs w).0)
  unfolding answer made
  answer-Inv [] s w is todo done v = (refl, rw (append-nil done) v)
  answer-Inv (r ∷ rs) s w is todo done v =
      let j = (make env r w).0 in
      let (e, x) =
        answer-Inv rs (add_new j s) (make env r w).1 is todo (done ++ (j ∷ []))
          (add_new-Inv s j is todo done v) in
      (e, rw (append_assoc done (j ∷ []) (made env rs (make env r w).1).0) at x)

  executed-Inv :
      (s : JobSystem F) (i : ℕ) (j j' : Job F) (is : List ℕ) (todo done : List (Job F))
      → Inv s (i ∷ is) (j ∷ todo) done
      → Inv (set_object i (some j') s) (i ∷ is) (j' ∷ todo) done
  executed-Inv s i j j' is todo done v = record {
    listed = Refers-set s i (some j') s.jobs done v.apart.0 v.listed;
    pending = (
      update_self s.object i (some j'),
      v.pending.1,
      v.pending.2,
      Refers-set s i (some j') is todo v.pending.2 v.pending.3,
    );
    apart = v.apart;
  }

  keep_or_delete-Inv :
      (b : Bool) (s : JobSystem F) (i : ℕ) (j : Job F) (is : List ℕ) (todo done : List (Job F))
      → Inv s (i ∷ is) (j ∷ todo) done
      → Inv (keep_or_delete env b i s) is todo (done ++ kept env b j)
  unfolding keep_or_delete
  keep_or_delete-Inv true s i j is todo done v = rw (append-nil done) (record {
    listed = Refers-set s i none s.jobs done v.apart.0 v.listed;
    pending = Refers-set s i none is todo v.pending.2 v.pending.3;
    apart = v.apart.1;
  })
  keep_or_delete-Inv false s i j is todo done v = record {
    listed = Refers-snoc s s.jobs done i j v.listed v.pending.0 v.pending.1 v.apart.0;
    pending = v.pending.3;
    apart = Apart-snoc is s.jobs i v.apart.1 v.pending.2;
  }

  -- A round of the loop in `Run`.
  run_one-Inv :
      (i : ℕ) (s : JobSystem F) (w : W) (j : Job F) (is : List ℕ) (todo done : List (Job F))
      → Inv s (i ∷ is) (j ∷ todo) done
      → let x = execute env j w in
        (s' : JobSystem F) × (run_one env i (s, w) ≡ some (s', (made env x.requests x.world).1))
        × Inv s' is todo (done ++ ((made env x.requests x.world).0 ++ kept env x.removed x.job))
  unfolding run_one
  run_one-Inv i s w j is todo done v =
      let x = execute env j w in
      let v₁ = executed-Inv s i j x.job is todo done v in
      let (e, v₂) =
        answer-Inv x.requests (set_object i (some x.job) s) x.world (i ∷ is) (x.job ∷ todo) done
          v₁ in
      let s₂ = (answer env x.requests (set_object i (some x.job) s, x.world)).0 in
      let news = (made env x.requests x.world).0 in
      (
        keep_or_delete env x.removed i s₂,
        rw (v.pending.0, e) refl,
        rw (append_assoc done news (kept env x.removed x.job)) at
            (keep_or_delete-Inv x.removed s₂ i x.job is todo (done ++ news) v₂),
      )

  run_jobs-Inv :
      (is : List ℕ) (s : JobSystem F) (w : W) (todo done : List (Job F))
      → Inv s is todo done
      → (s' : JobSystem F) × (run_jobs env is (s, w) ≡ some (s', (run_list env todo w).1))
        × Refers s' s'.jobs (done ++ (run_list env todo w).0)
  unfolding run_jobs run_list
  run_jobs-Inv [] s w [] done v = (s, refl, rw (append-nil done) v.listed)
  run_jobs-Inv [] s w (j ∷ todo) done v = absurd v.pending
  run_jobs-Inv (i ∷ is) s w [] done v = absurd v.pending
  run_jobs-Inv (i ∷ is) s w (j ∷ todo) done v =
      let x = execute env j w in
      let news = (made env x.requests x.world).0 in
      let w₁ = (made env x.requests x.world).1 in
      let (s₁, e₁, v₁) = run_one-Inv i s w j is todo done v in
      let (s₂, e₂, v₂) =
        run_jobs-Inv is s₁ w₁ todo (done ++ (news ++ kept env x.removed x.job)) v₁ in
      (
        s₂,
        rw e₁ e₂,
        rw
            (
              append_assoc done (news ++ kept env x.removed x.job) (run_list env todo w₁).0,
              append_assoc news (kept env x.removed x.job) (run_list env todo w₁).0,
            )
            at v₂,
      )

  -- `Run`, on a system whose list refers to different objects, uses no object that is not there. It
  -- executes each of the jobs once, in order, and leaves a list that refers to different objects
  -- again: for each job those that its callback added, and then the job itself unless it is done.
  pub run_refines :
      (s : JobSystem F) (w : W) (js : List (Job F))
      → Refers s s.jobs js
      → (s' : JobSystem F) × (run env (s, w) ≡ some (s', (run_list env js w).1))
        × Refers s' s'.jobs (run_list env js w).0
  unfolding run
  run_refines s w js h =
      run_jobs-Inv s.jobs (record s { jobs = [] }) w js []
        (record { listed = tt; pending = same s.jobs js h; apart = apart s.jobs })
    where
      same :
          (is : List ℕ) (js : List (Job F)) → Refers s is js → Refers (record s { jobs = [] }) is js
      same is js h = h

      apart : (is : List ℕ) → Apart is []
      apart [] = tt
      apart (i ∷ is) = (tt, apart is)
