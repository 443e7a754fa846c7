-- ===== src/Thread/Handshake.antt =====
-- The new thread calls its callback with its number known, and waits for nothing but the lock.
use nomad_tasks.Prelude.{ℕ, ◌<◌, ◌≡◌, ◌≢◌, refl, Bool, true, false, some, List, [], ◌∷◌, arith}
use nomad_tasks.Thread.{
  no_id, notified, Parent, begins, locks, creates, stores, unlocks, notifies, spawned, Child,
  unborn, reads, leaves, unlocks_to_wait, waits, calls, Holder, nobody, the_parent, the_child,
  Startup, parent_step, child_step, step, run, start,
}

-- Who holds the lock, by where the two stand.
abbrev Holds : Child → Holder → Type 0
Holds reads l = l ≡ the_child
Holds leaves l = l ≡ the_child
Holds unlocks_to_wait l = ⊥
Holds waits l = ⊥
Holds c l = Unit {0}

abbrev Known : ℕ → Startup → Type 0
Known n s = s.id ≡ n

-- What may be, by where the parent stands.
abbrev Fits : ℕ → Parent → Startup → Type 0
Fits n begins s = (s.child ≡ unborn) × (s.lock ≡ nobody)
Fits n locks s = (s.child ≡ unborn) × (s.lock ≡ nobody)
Fits n creates s = (s.child ≡ unborn) × (s.lock ≡ the_parent)
Fits n stores s = (s.lock ≡ the_parent) × (s.child ≢ calls)
Fits n unlocks s = (s.lock ≡ the_parent) × (s.id ≡ n) × (s.child ≢ calls)
Fits n notifies s = (s.id ≡ n) × (s.lock ≢ the_parent)
Fits n (spawned ok) s = (s.id ≡ n) × (s.lock ≢ the_parent) × (ok ≡ true)

abbrev Inv : ℕ → Startup → Type 0
Inv n s = Fits n s.parent s × Holds s.child s.lock

Holds-unlock : (c : Child) → Holds c the_parent → Holds c nobody
Holds-unlock reads h = cc
Holds-unlock leaves h = cc
Holds-unlock c h = h

Holds-notified : (c : Child) (l : Holder) → Holds c l → Holds (notified c) l
Holds-notified waits l h = absurd h
Holds-notified c l h = h

parent_step-Inv :
    (n : ℕ) (s : Startup) (p : Parent)
    → n < no_id
    → s.parent ≡ p
    → Fits n p s
    → Holds s.child s.lock
    → Inv n (parent_step (some n) p s)
unfolding parent_step
parent_step-Inv n s begins lt at f h = ground arith
parent_step-Inv n s locks lt at f h = ground arith
parent_step-Inv n s creates lt at f h = ground arith
parent_step-Inv n s stores lt at f h = ground arith
parent_step-Inv n s unlocks lt at f h = ((f.1, λ e. cc), Holds-unlock s.child (rw f.0 at h))
parent_step-Inv n s notifies lt at f h = ((f.0, f.1, ground arith), Holds-notified s.child s.lock h)
parent_step-Inv n s (spawned ok) lt at f h = (rw at f, h)

child_step-Inv :
    (n : ℕ) (callback : Bool) (s : Startup) (p : Parent) (c : Child)
    → n < no_id
    → s.parent ≡ p
    → s.child ≡ c
    → Fits n p s
    → Holds c s.lock
    → Inv n (child_step callback c s)
unfolding child_step
child_step-Inv n callback s begins unborn lt at at' f h = ground arith
child_step-Inv n callback s p c lt at at' f h = ground arith

step-Inv :
    (n : ℕ) (callback e : Bool) (s : Startup)
    → n < no_id
    → Inv n s
    → Inv n (step callback (some n) e s)
unfolding step
step-Inv n callback true s lt v = parent_step-Inv n s s.parent lt refl v.0 v.1
step-Inv n callback false s lt v = child_step-Inv n callback s s.parent s.child lt refl refl v.0 v.1

run-Inv :
    (n : ℕ) (callback : Bool) (es : List Bool) (s : Startup)
    → n < no_id
    → Inv n s
    → Inv n (run callback (some n) es s)
unfolding run
run-Inv n callback [] s lt v = v
run-Inv n callback (e ∷ es) s lt v =
    run-Inv n callback es (step callback (some n) e s) lt (step-Inv n callback e s lt v)

Holds-not_waits : (c : Child) (l : Holder) → Holds c l → c ≢ waits
Holds-not_waits waits l h e = h
Holds-not_waits c l h e = cc

Fits-calls : (n : ℕ) (p : Parent) (s : Startup) → Fits n p s → s.child ≡ calls → s.id ≡ n
Fits-calls n begins s f e = absurd (ground arith)
Fits-calls n locks s f e = absurd (ground arith)
Fits-calls n creates s f e = absurd (ground arith)
Fits-calls n stores s f e = absurd (f.1 e)
Fits-calls n unlocks s f e = absurd (f.2 e)
Fits-calls n notifies s f e = f.0
Fits-calls n (spawned ok) s f e = f.0

module _ (n old : ℕ) (callback : Bool) (es : List Bool) (real : n < no_id) where
  abbrev end : Startup
  end = run callback (some n) es (start old)

  end-Inv : Inv n end
  end-Inv = run-Inv n callback es (start old) real ((refl, refl), tt)

  -- Where the operating system creates the thread, with a number below UINT32_MAX, the new thread is in
  -- its callback only once its number is stored, whenever it was started.
  pub calls-id : end.child ≡ calls → end.id ≡ n
  calls-id e = Fits-calls n end.parent end end-Inv.0 e

  -- Where the operating system creates the thread, with a number below UINT32_MAX, the new thread never
  -- comes to wait on the condition variable, for whose notification it might be too late.
  pub never_waits : end.child ≢ waits
  never_waits = Holds-not_waits end.child end.lock end-Inv.1
