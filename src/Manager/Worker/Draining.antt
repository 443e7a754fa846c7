-- ===== src/Manager/Worker/Draining.antt =====
-- A worker's loop on queues at rest.
use nomad_tasks.Prelude.{
  ◌>>=◌, ℕ, zero, suc, ◌+◌, ◌≡◌, refl, sym, ap, subst, ◌∙◌, false, Option, some, none, List, [],
  ◌∷◌, ◌++◌, length, replicate, if◌then◌else◌, arith,
}
use mathlib.Core.List.{map}
use nomad_tasks.Mpmc.{Mpmc}
use nomad_tasks.Mpmc.Fifo.{pop}
use nomad_tasks.Manager.{Job, Manager}
use nomad_tasks.Manager.Jobs.{Next, found, nothing, get_next_job, execute, count_down}
use nomad_tasks.Manager.Jobs.OnlyQueues.{with_four, get_next_job-OnlyQueues}
use nomad_tasks.Manager.Jobs.Kept.{get_next_job-Same}
use nomad_tasks.Manager.Jobs.Choosing.Order.{Sizes, Holds, choose}
use nomad_tasks.Manager.Worker.{
  Round, executes, sleeps, leaves_loop, worker_round, worker_rounds, after_next,
}
use nomad_tasks.Manager.Worker.AtWork.{
  Alone, NoCounters, AtWork, AtWork-Same, AtWork-Alone, next-AtWork,
}

module _ {F : Type 0} (call : F → ℕ → Manager F → ℕ × Manager F) where
  -- All calls are such.
  abbrev pub Quiet : Type 0
  Quiet = (f : F) (t : ℕ) (m : Manager F) → Alone t m (call f t m)

  called-Alone :
      (o : Option F) (t : ℕ) (m : Manager F)
      → Quiet
      → Alone t m (execute call (record { callback = o; counter = none }) t m)
  unfolding execute count_down
  called-Alone none t m quiet = record {
    thread = refl;
    flag = refl;
    record_ = refl;
    high = refl;
    normal = refl;
    low = refl;
    io = refl;
  }
  called-Alone (some f) t m quiet = quiet f t m

  execute-Alone :
      (job : Job F) (t : ℕ) (m : Manager F)
      → Quiet
      → job.counter ≡ none
      → Alone t m (execute call job t m)
  execute-Alone job t m quiet e =
      let same : record job { counter = none } ≡ job =
        ap (λ c. record job { counter = c }) (sym e) in
      rw (← same) (called-Alone job.callback t m quiet)

  pub round_of :
      (t : ℕ) (m m₁ : Manager F) (x : Next F)
      → m.shutting_down ≡ false
      → get_next_job t m ≡ some (x, m₁)
      → worker_round call t m ≡ some (after_next call t (x, m₁))
  unfolding worker_round
  round_of t m m₁ x awake e =
      ap
        (λ b.
          if b
          then some (leaves_loop, t, m)
          else (get_next_job t m >>= λ r. some (after_next call t r)))
        awake
      ∙ ap (λ o. o >>= λ r. some (after_next call t r)) e

-- What jobs do to the part of the manager that is looked at, where a call of `f` does `eff f`.
module _ {F : Type 0} {A : Type 0} (eff : F → A → A) where
  abbrev pub effect : Option F → A → A
  effect none a = a
  effect (some f) a = eff f a

  abbrev pub effects : List (Job F) → A → A
  effects [] a = a
  effects (job ∷ js) a = effects js (effect job.callback a)

module _ {F : Type 0} {A : Type 0} (call : F → ℕ → Manager F → ℕ × Manager F) (obs : Manager F → A)
    (eff : F → A → A) where
  -- A call of `f` does `eff f` to what is looked at, which the queues are not part of.
  pub record Seen : Type 0 where
    pub calls : (f : F) (t : ℕ) (m : Manager F) → obs (call f t m).1 ≡ eff f (obs m)
    pub blind : (m : Manager F) (h n l i : Mpmc (Job F)) → obs (with_four h n l i m) ≡ obs m

  called-effect :
      (o : Option F) (t : ℕ) (m : Manager F)
      → Seen
      → obs (execute call (record { callback = o; counter = none }) t m).1 ≡ effect eff o (obs m)
  unfolding execute count_down
  called-effect none t m seen = refl
  called-effect (some f) t m seen = seen.calls f t m

  execute-effect :
      (job : Job F) (t : ℕ) (m : Manager F)
      → Seen
      → job.counter ≡ none
      → obs (execute call job t m).1 ≡ effect eff job.callback (obs m)
  execute-effect job t m seen e =
      let same : record job { counter = none } ≡ job =
        ap (λ c. record job { counter = c }) (sym e) in
      rw (← same) (called-effect job.callback t m seen)

  next-unseen :
      (z : Sizes) (t : ℕ) (m m₁ : Manager F) (h n l i : List (Job F)) (x : Next F)
      → Seen
      → AtWork z t m h n l i
      → get_next_job t m ≡ some (x, m₁)
      → obs m₁ ≡ obs m
  next-unseen z t m m₁ h n l i x seen w e =
      let (a, b, c, d, same) = get_next_job-OnlyQueues t m m₁ x w.not_io w.none_ready e in
      ap obs same ∙ seen.blind m a b c d

  work_round :
      (z : Sizes) (t : ℕ) (m : Manager F) (h n l i h' n' l' : List (Job F)) (job : Job F)
      → Quiet call
      → Seen
      → AtWork z t m h n l i
      → choose false none h n l i ≡ (found job, (h', n', l', i))
      → job.counter ≡ none
      → (m' : Manager F) × (worker_round call t m ≡ some (executes job, t, m'))
        × AtWork z t m' h' n' l' i
        × (obs m' ≡ effect eff job.callback (obs m))
  unfolding after_next
  work_round z t m h n l i h' n' l' job quiet seen w e free =
      let (m₁, found_it, holds) = rw e at (next-AtWork z t m h n l i w) in
      let s = get_next_job-Same t m m₁ (found job) w.not_io w.none_ready found_it in
      let w₁ = AtWork-Same z t m m₁ h n l i h' n' l' i w s holds in
      let a = execute-Alone call job t m₁ quiet free in
      (
        (execute call job t m₁).1,
        round_of call t m m₁ (found job) w.awake found_it
            ∙ ap (λ u. some (executes job, u, (execute call job t m₁).1)) a.thread,
        AtWork-Alone z t m₁ (execute call job t m₁) h' n' l' i w₁ a,
        execute-effect job t m₁ seen free
            ∙ ap (effect eff job.callback)
                (next-unseen z t m m₁ h n l i (found job) seen w found_it),
      )

  idle_round :
      (z : Sizes) (t : ℕ) (m : Manager F) (i : List (Job F))
      → Seen
      → AtWork z t m [] [] [] i
      → (m' : Manager F) × (worker_round call t m ≡ some (sleeps, t, m'))
        × AtWork z t m' [] [] [] i
        × (obs m' ≡ obs m)
  unfolding after_next choose pop
  idle_round z t m i seen w =
      let (m₁, found_none, holds) = next-AtWork z t m [] [] [] i w in
      let s = get_next_job-Same t m m₁ nothing w.not_io w.none_ready found_none in
      (
        m₁,
        round_of call t m m₁ nothing w.awake found_none,
        AtWork-Same z t m m₁ [] [] [] i [] [] [] i w s holds,
        next-unseen z t m m₁ [] [] [] i nothing seen w found_none,
      )

  -- What `k` rounds and then more come to; `a` is what is then seen.
  Rounds : Sizes → ℕ → Manager F → List (Job F) → ℕ → List (Round F) → A → Type 0
  Rounds z t m i k rs a =
      (m' : Manager F) × (worker_rounds call k t m ≡ some (rs, t, m'))
      × AtWork z t m' [] [] [] i
      × (obs m' ≡ a)

  idle-Rounds :
      (z : Sizes) (t k : ℕ) (m : Manager F) (i : List (Job F))
      → Seen
      → AtWork z t m [] [] [] i
      → Rounds z t m i k (replicate k sleeps) (obs m)
  unfolding Rounds worker_rounds
  idle-Rounds z t zero m i seen w = (m, refl, w, refl)
  idle-Rounds z t (suc k) m i seen w =
      let (m₁, e, w₁, o) = idle_round z t m i seen w in
      let (m₂, e', w₂, o') = idle-Rounds z t k m₁ i seen w₁ in (m₂, rw (e, e') refl, w₂, o' ∙ o)

  round_more :
      (z : Sizes) (t n k : ℕ) (m m₁ : Manager F) (i : List (Job F)) (job : Job F)
      (rs : List (Round F)) (a : A)
      → worker_round call t m ≡ some (executes job, t, m₁)
      → Rounds z t m₁ i (n + k) rs a
      → Rounds z t m i (suc n + k) (executes job ∷ rs) a
  unfolding Rounds worker_rounds
  round_more z t n k m m₁ i job rs a e (m₂, e', w, o) =
      let next : suc n + k ≡ suc (n + k) = omega arith in (m₂, rw next (rw (e, e') refl), w, o)

  all-Rounds :
      (z : Sizes) (t : ℕ) (m : Manager F) (h n l i : List (Job F)) (k : ℕ)
      → Quiet call
      → Seen
      → AtWork z t m h n l i
      → NoCounters (h ++ (n ++ l))
      → Rounds z t m i
          (length (h ++ (n ++ l)) + k)
          (map executes (h ++ (n ++ l)) ++ replicate k sleeps)
          (effects eff (h ++ (n ++ l)) (obs m))
  unfolding choose pop
  all-Rounds z t m (job ∷ h) n l i k quiet seen w (a, free) =
      let (m₁, e, w₁, o) = work_round z t m (job ∷ h) n l i h n l job quiet seen w refl a in
      round_more z t (length (h ++ (n ++ l))) k m m₁ i job _ _ e (
        subst (Rounds z t m₁ i (length (h ++ (n ++ l)) + k) _) (ap (effects eff (h ++ (n ++ l))) o)
          (all-Rounds z t m₁ h n l i k quiet seen w₁ free))
  all-Rounds z t m [] (job ∷ n) l i k quiet seen w (a, free) =
      let (m₁, e, w₁, o) = work_round z t m [] (job ∷ n) l i [] n l job quiet seen w refl a in
      round_more z t (length (n ++ l)) k m m₁ i job _ _ e (
        subst (Rounds z t m₁ i (length (n ++ l) + k) _) (ap (effects eff (n ++ l)) o)
          (all-Rounds z t m₁ [] n l i k quiet seen w₁ free))
  all-Rounds z t m [] [] (job ∷ l) i k quiet seen w (a, free) =
      let (m₁, e, w₁, o) = work_round z t m [] [] (job ∷ l) i [] [] l job quiet seen w refl a in
      round_more z t (length l) k m m₁ i job _ _ e (
        subst (Rounds z t m₁ i (length l + k) _) (ap (effects eff l) o)
          (all-Rounds z t m₁ [] [] l i k quiet seen w₁ free))
  all-Rounds z t m [] [] [] i k quiet seen w free =
      let e : 0 + k ≡ k = omega arith in rw e (idle-Rounds z t k m i seen w)

  -- A worker on a thread that is not for input and output and has no ready fiber, on queues at rest with
  -- positions below the wrap, of a manager that is not shutting down, where no job has a counter and
  -- calls come back on their thread and leave its record and the queues alone: given as many
  -- rounds as there are jobs of the three priorities, and `k` more, it executes each of these jobs once,
  -- first those of high priority, then the normal ones, then the low ones, each in the order of their
  -- queue, sleeps in the rounds after, and leaves the jobs for input and output where they are. What is
  -- seen of the manager, where it does not depend on the queues and a call of `f` does `eff f` to it, is
  -- in the end what these jobs' calls, each made once and in this order, do to what was seen before.
  pub drain :
      (z : Sizes) (t : ℕ) (m : Manager F) (h n l i : List (Job F)) (k : ℕ)
      → Quiet call
      → Seen
      → AtWork z t m h n l i
      → NoCounters (h ++ (n ++ l))
      → (m' : Manager F) × (worker_rounds call (length (h ++ (n ++ l)) + k) t m
          ≡ some (map executes (h ++ (n ++ l)) ++ replicate k sleeps, t, m'))
        × Holds z m' [] [] [] i
        × (obs m' ≡ effects eff (h ++ (n ++ l)) (obs m))
  unfolding Rounds
  drain z t m h n l i k quiet seen w free =
      let (m', e, w', o) = all-Rounds z t m h n l i k quiet seen w free in (m', e, w'.holds, o)
