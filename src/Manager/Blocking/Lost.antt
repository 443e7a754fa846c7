-- ===== src/Manager/Blocking/Lost.antt =====
-- A notification that comes before the wait (ManagerJobs.cpp), and one that comes after.
use nomad_tasks.Prelude.{◌≡◌, ◌≢◌, refl, sym, ap, Bool, true, false, List, [], ◌∷◌}
use nomad_tasks.Manager.Blocking.{
  waits, returned, Proxy, unborn, queued, in_wait, notifies, finished, Turn, of_caller, of_proxy,
  of_counter, Blocking, caller_step, proxy_step, step, run, start,
}

-- The job is executed, finds the counter at its target and notifies before the caller waits.
abbrev pub too_early : List Turn
too_early =
    of_caller true false
    ∷ of_caller true false
    ∷ of_caller true false
    ∷ of_proxy
    ∷ of_counter true
    ∷ of_proxy
    ∷ of_proxy
    ∷ of_caller true false
    ∷ []

-- In no turn does `cv.wait` return with no notification.
abbrev pub NoSpurious : List Turn → Type 0
NoSpurious [] = Unit {0}
NoSpurious (of_caller room true ∷ es) = ⊥
NoSpurious (of_caller room false ∷ es) = NoSpurious es
NoSpurious (of_proxy ∷ es) = NoSpurious es
NoSpurious (of_counter b ∷ es) = NoSpurious es

stuck_step :
    (e : Turn) (s : Blocking)
    → NoSpurious (e ∷ [])
    → s.caller ≡ waits
    → s.proxy ≡ finished
    → ((step e s).caller ≡ waits) × ((step e s).proxy ≡ finished)
unfolding step caller_step proxy_step
stuck_step (of_caller room true) s h a b = absurd h
stuck_step (of_caller room false) s h a b = rw a (refl, b)
stuck_step of_proxy s h a b = rw b (a, refl)
stuck_step (of_counter r) s h a b = (a, b)

NoSpurious-split :
    (e : Turn) (es : List Turn) → NoSpurious (e ∷ es) → NoSpurious (e ∷ []) × NoSpurious es
NoSpurious-split (of_caller room true) es h = absurd h
NoSpurious-split (of_caller room false) es h = (tt, h)
NoSpurious-split of_proxy es h = (tt, h)
NoSpurious-split (of_counter b) es h = (tt, h)

stuck :
    (es : List Turn) (s : Blocking)
    → NoSpurious es
    → s.caller ≡ waits
    → s.proxy ≡ finished
    → (run es s).caller ≡ waits
unfolding run
stuck [] s h a b = a
stuck (e ∷ es) s h a b =
    let (now, later) = NoSpurious-split e es h in
    let (a', b') = stuck_step e s now a b in stuck es (step e s) later a' b'

-- After the schedule `too_early`, where the job finds the counter at its target and notifies before the
-- caller waits, the caller waits on, whatever the threads do next, and whatever becomes of the counter,
-- as long as `cv.wait` does not return with no notification.
pub lost_wakeup : (es : List Turn) → NoSpurious es → (run es (run too_early start)).caller ≡ waits
unfolding run step caller_step proxy_step
lost_wakeup es h = stuck es (run too_early start) h refl refl

abbrev goes_on : List Turn
goes_on = of_counter true ∷ of_proxy ∷ of_proxy ∷ of_proxy ∷ []

wakes :
    (p : Proxy) (r : Bool)
    → p ≢ unborn
    → p ≢ finished
    → (run goes_on (record { caller = waits; proxy = p; reached = r })).caller ≡ returned
unfolding run step proxy_step
wakes unborn r b c = absurd (b refl)
wakes queued r b c = refl
wakes in_wait r b c = refl
wakes notifies r b c = refl
wakes finished r b c = absurd (c refl)

-- A caller that waits while its job has not finished does return, once the job is executed to its end
-- with the counter at its target.
in_time :
    (s : Blocking)
    → s.caller ≡ waits
    → s.proxy ≢ unborn
    → s.proxy ≢ finished
    → (run goes_on s).caller ≡ returned
in_time s a b c =
    let same : record s { caller = waits } ≡ s = ap (λ x. record s { caller = x }) (sym a) in
    rw (← same) (wakes s.proxy s.reached b c)
