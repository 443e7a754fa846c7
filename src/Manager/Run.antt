-- ===== src/Manager/Run.antt =====
-- `Run` and `Shutdown` (Manager.cpp), up to the switch to the main fiber. What the threads that `Run`
-- spawns do meanwhile is a parameter.
use nomad_tasks.Prelude.{
  ◌>>=◌, ℕ, ◌∙◌, sym, ap, update_ne, update_self, dec_lt, zero, suc, ◌+◌, ◌-◌, ◌≤◌, ◌<◌, ◌≡◌, refl,
  Bool, true, false, not, ◌&&◌, ◌||◌, Option, some, none, if◌then◌else◌, Bool-cases, inl, inr,
  arith, update, ltb, ◌==◌,
}
use nomad_tasks.Manager.{Manager, Tls, new_tls, set_tls}
use nomad_tasks.Manager.Fibers.{
  find_free_fiber, take_fiber, find_free_fiber-idle, find_free_fiber-total,
}

-- `ReturnCode`, or that the main thread switches to `fiber`.
pub data Started : Type 0 where
  success : Started
  os_error : Started
  null_callback : Started
  already_initialized : Started
  invalid_num_fibers : Started
  error_thread_affinity : Started
  enters : (fiber : ℕ) → Started

-- Thread `j` of `n` is numbered, and is for input and output if it is the last and not the first.
abbrev pub Numbered : ℕ → ℕ → Tls → Type 0
Numbered n j l = (l.thread_index ≡ j) × (l.is_io ≡ (not (j == 0) && (j == n - 1)))

module _ {F : Type 0} where
  -- `new Thread[_numThreads]`
  abbrev pub make_threads : Manager F → Manager F
  make_threads m = record m { threads_made = true; tls = λ _. new_tls; spawned = λ _. false }

  abbrev pub make_fibers : Manager F → Manager F
  make_fibers m = record m { fibers_made = true; idle_fibers = λ _. true; main_fiber = none }

  -- The record of thread `i`, before it is spawned.
  abbrev pub set_up : ℕ → Manager F → Tls
  set_up i m =
      let l = record (m.tls i) { thread_index = i } in
      if i == 0
      then l
      else if i == m.num_threads - 1
      then record l { is_io = true }
      else record l { has_affinity = m.has_thread_affinity }

  -- The loop that spawns the threads, from thread `i` with `n` left; `spawn` says which threads the
  -- operating system lets begin. The flag says whether all went well.
  pub spawn_threads : (ℕ → Bool) → ℕ → ℕ → Manager F → Bool × Manager F
  spawn_threads spawn zero i m = (true, m)
  spawn_threads spawn (suc n) i m =
      let m₁ = set_tls i (set_up i m) m in
      let m₂ = record m₁ { spawned = update m₁.spawned i true } in
      let idle = spawn_threads spawn n (i + 1) m₁ in
      let begun = spawn_threads spawn n (i + 1) m₂ in
      if i == 0 || not m.auto_spawn_threads then idle else if spawn i then begun else (false, m₁)

  -- What follows the loop.
  abbrev pub enter : Option F → ℕ → Manager F → Started × Manager F
  enter (some main) fiber m =
      (enters fiber, record m { main_callback = some main; main_fiber = some fiber })
  enter none fiber m =
      let m' = record m { main_callback = none } in
      if m.shutdown_after_main
      then (null_callback, m')
      else (success, record m' { main_fiber = some fiber })

  -- `meanwhile` is what the threads that were spawned have done by the time the main thread looks for a
  -- fiber: each takes one of its own.
  abbrev pub after_spawn :
      (Manager F → Manager F) → Option F → Bool → Manager F → Option (Started × Manager F)
  after_spawn meanwhile main false m = some (os_error, m)
  after_spawn meanwhile main true m = do
    r ← find_free_fiber (meanwhile m)
    some (enter main r.0 (set_tls 0 (record (r.1.tls 0) { current_fiber = r.0 }) r.1))

  -- `Run`, on a machine of `cores` cores; `none` means that no fiber is idle.
  pub run :
      ℕ → (ℕ → Bool) → (Manager F → Manager F) → Option F → Manager F → Option (Started × Manager F)
  unfolding spawn_threads
  run cores spawn meanwhile main m =
      if m.threads_made || m.fibers_made
      then some (already_initialized, m)
      else let m₁ = make_threads m in
        if m.num_fibers == 0
        then some (invalid_num_fibers, m₁)
        else let m₂ = make_fibers m₁ in
          if m.has_thread_affinity && (m.num_threads == 0 || ltb (cores + 1) m.num_threads)
          then some (error_thread_affinity, m₂)
          else (let r = spawn_threads spawn m.num_threads 0 m₂ in
              after_spawn meanwhile main r.0 r.1)

  -- `Shutdown(false)`
  abbrev pub shutdown : Manager F → Manager F
  shutdown m = record m { shutting_down = true }

  -- A round of the loop that goes well, and what it leaves.
  abbrev round : ℕ → Manager F → Manager F
  round i m =
      let m₁ = set_tls i (set_up i m) m in
      if i == 0 || not m.auto_spawn_threads
      then m₁
      else record m₁ { spawned = update m₁.spawned i true }

  spawn_threads-suc :
      (spawn : ℕ → Bool) (n i : ℕ) (m : Manager F)
      → ((a : ℕ) → spawn a ≡ true)
      → spawn_threads spawn (suc n) i m ≡ spawn_threads spawn n (i + 1) (round i m)
  unfolding spawn_threads
  spawn_threads-suc spawn n i m all = elim (Bool-cases (i == 0 || not m.auto_spawn_threads)) [
    | inl skip ↦ rw skip refl
    | inr go ↦ rw (go, all i) refl
  ]

  round-kept :
      (i : ℕ) (m : Manager F)
      → ((round i m).num_fibers ≡ m.num_fibers)
        × ((round i m).idle_fibers ≡ m.idle_fibers)
        × ((round i m).num_threads ≡ m.num_threads)
        × ((round i m).has_thread_affinity ≡ m.has_thread_affinity)
        × ((round i m).tls ≡ update m.tls i (set_up i m))
  round-kept i m = elim (Bool-cases (i == 0 || not m.auto_spawn_threads)) [
    | inl skip ↦ rw skip (refl, refl, refl, refl, refl)
    | inr go ↦ rw go (refl, refl, refl, refl, refl)
  ]

  spawn_threads-kept :
      (spawn : ℕ → Bool) (n i : ℕ) (m : Manager F)
      → ((a : ℕ) → spawn a ≡ true)
      → let r = spawn_threads spawn n i m in
        (r.0 ≡ true) × (r.1.num_fibers ≡ m.num_fibers) × (r.1.idle_fibers ≡ m.idle_fibers)
  unfolding spawn_threads
  spawn_threads-kept spawn zero i m all = (refl, refl, refl)
  spawn_threads-kept spawn (suc n) i m all =
      let (a, b, c) = spawn_threads-kept spawn n (i + 1) (round i m) all in
      let k = round-kept i m in rw (spawn_threads-suc spawn n i m all) (a, b ∙ k.0, c ∙ k.1)

  spawn_threads-before :
      (spawn : ℕ → Bool) (n i j : ℕ) (m : Manager F)
      → ((a : ℕ) → spawn a ≡ true)
      → j < i
      → (spawn_threads spawn n i m).1.tls j ≡ m.tls j
  unfolding spawn_threads
  spawn_threads-before spawn zero i j m all lt = refl
  spawn_threads-before spawn (suc n) i j m all lt = rw (spawn_threads-suc spawn n i m all) (
      spawn_threads-before spawn n (i + 1) j (round i m) all (omega arith)
      ∙ ap (λ f. f j) (round-kept i m).4
      ∙ update_ne m.tls (set_up i m) (λ e. omega arith))

  set_up-Numbered :
      (i : ℕ) (m : Manager F) → (m.tls i).is_io ≡ false → Numbered m.num_threads i (set_up i m)
  set_up-Numbered i m new = (ground arith, ground (arith, new))

  spawn_threads-Numbered :
      (spawn : ℕ → Bool) (n i j : ℕ) (m : Manager F)
      → ((a : ℕ) → spawn a ≡ true)
      → ((a : ℕ) → i ≤ a → (m.tls a).is_io ≡ false)
      → i ≤ j
      → j < i + n
      → Numbered m.num_threads j ((spawn_threads spawn n i m).1.tls j)
  spawn_threads-Numbered spawn zero i j m all new ge lt = absurd (omega arith)
  spawn_threads-Numbered spawn (suc n) i j m all new ge lt = elim (dec_lt i j) [
    | yes later ↦
        let k = round-kept i m in
        let rest =
          spawn_threads-Numbered spawn n (i + 1) j (round i m) all
            (λ a le.
              ap (λ f. (f a).is_io) k.4
              ∙ ap (λ l. l.is_io) (update_ne m.tls (set_up i m) (λ e. omega arith))
              ∙ new a (omega arith))
            (omega arith) (omega arith) in
        rw (spawn_threads-suc spawn n i m all) (rw k.2 at rest)
    | no here ↦
        let e : i ≡ j = omega arith in
        let own : (spawn_threads spawn (suc n) i m).1.tls j ≡ set_up i m =
          rw (spawn_threads-suc spawn n i m all) (
            spawn_threads-before spawn n (i + 1) j (round i m) all (omega arith)
            ∙ ap (λ f. f j) (round-kept i m).4
            ∙ ap (λ x. update m.tls i (set_up i m) x) (sym e)
            ∙ update_self m.tls i (set_up i m)) in
        rw (own, ← e) (set_up-Numbered i m (new i (omega arith)))
  ]

  -- What the threads that were spawned leave: the number of fibers, how the threads are numbered, and
  -- fiber `k`, which they have not taken.
  pub record Spares (k : ℕ) (meanwhile : Manager F → Manager F) : Type 0 where
    pub fibers : (m : Manager F) → (meanwhile m).num_fibers ≡ m.num_fibers
    pub index :
        (m : Manager F) (i : ℕ) → ((meanwhile m).tls i).thread_index ≡ (m.tls i).thread_index
    pub io : (m : Manager F) (i : ℕ) → ((meanwhile m).tls i).is_io ≡ (m.tls i).is_io
    pub kept : (m : Manager F) → (meanwhile m).idle_fibers k ≡ m.idle_fibers k

  -- The main thread enters fiber `f`.
  abbrev entered : ℕ → F → Manager F → Manager F
  entered f main m =
      (enter (some main) f (set_tls 0 (record (m.tls 0) { current_fiber = f }) (take_fiber f m))).1

  after_spawn-entered :
      (meanwhile : Manager F → Manager F) (main : F) (m : Manager F) (k : ℕ)
      → k < (meanwhile m).num_fibers
      → (meanwhile m).idle_fibers k ≡ true
      → (f : ℕ) × (after_spawn meanwhile (some main) true m
          ≡ some (enters f, entered f main (meanwhile m)))
        × ((meanwhile m).idle_fibers f ≡ true)
  after_spawn-entered meanwhile main m k lt e =
      let (f, m', found) = find_free_fiber-total (meanwhile m) k lt e in
      let (_, was, same) = find_free_fiber-idle (meanwhile m) f m' found in
      (f, rw found (rw same refl), was)

  entered-Numbered :
      (f : ℕ) (main : F) (m : Manager F) (n i : ℕ)
      → Numbered n i (m.tls i)
      → Numbered n i ((entered f main m).tls i)
  entered-Numbered f main m n zero h = h
  entered-Numbered f main m n (suc i) h =
      rw
        (update_ne m.tls {i = 0} {j = suc i} (record (m.tls 0) { current_fiber = f })
          (λ e. omega arith))
        h

  -- The first `Run` of a manager with fibers, whose threads fit the machine if they are bound to its
  -- cores and can all be spawned, where the threads that were spawned leave some fiber idle and the
  -- threads' numbers alone, enters the given main callback on a fiber that is idle after what these
  -- threads have done, and is then not idle, with each thread's record numbered, and the last one's,
  -- if it is not the main thread's, for input and output.
  pub run-enters :
      (cores : ℕ) (spawn : ℕ → Bool) (meanwhile : Manager F → Manager F) (main : F) (m : Manager F)
      (i k : ℕ)
      → m.threads_made ≡ false
      → m.fibers_made ≡ false
      → k < m.num_fibers
      → (m.has_thread_affinity && (m.num_threads == 0 || ltb (cores + 1) m.num_threads)) ≡ false
      → ((a : ℕ) → spawn a ≡ true)
      → Spares k meanwhile
      → i < m.num_threads
      → (f : ℕ) × (m' : Manager F) × (run cores spawn meanwhile (some main) m ≡ some (enters f, m'))
        × (let spawned = (spawn_threads spawn m.num_threads 0 (make_fibers (make_threads m))).1 in
            (meanwhile spawned).idle_fibers f ≡ true)
        × (m'.main_fiber ≡ some f)
        × (m'.idle_fibers f ≡ false)
        × ((m'.tls 0).current_fiber ≡ f)
        × Numbered m.num_threads i (m'.tls i)
  unfolding run
  run-enters cores spawn meanwhile main m i k no_threads no_fibers some_fiber fits all left below =
      let m₂ = make_fibers (make_threads m) in
      let r = spawn_threads spawn m.num_threads 0 m₂ in
      let (ok, fibers, idle) = spawn_threads-kept spawn m.num_threads 0 m₂ all in
      let apart : (m.num_fibers == 0) ≡ false = ground arith in
      let enough : k < (meanwhile r.1).num_fibers = rw (left.fibers r.1, fibers) some_fiber in
      let free : (meanwhile r.1).idle_fibers k ≡ true = left.kept r.1 ∙ ap (λ f. f k) idle in
      let (f, e, was) = after_spawn-entered meanwhile main r.1 k enough free in
      let (index, kind) =
        spawn_threads-Numbered spawn m.num_threads 0 i m₂ all (λ a le. refl) (omega arith)
          (omega arith) in
      let numbered : Numbered m.num_threads i ((meanwhile r.1).tls i) =
        (left.index r.1 i ∙ index, left.io r.1 i ∙ kind) in
      (
        f,
        entered f main (meanwhile r.1),
        rw (no_threads, no_fibers, apart, fits, ok) e,
        was,
        refl,
        update_self (meanwhile r.1).idle_fibers f false,
        refl,
        entered-Numbered f main (meanwhile r.1) m.num_threads i numbered,
      )
