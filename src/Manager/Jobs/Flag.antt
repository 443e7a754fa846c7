-- ===== src/Manager/Jobs/Flag.antt =====
-- No operation of the manager on jobs takes back that it shuts down.
use nomad_tasks.Prelude.{
  ℕ, ◌≡◌, refl, sym, ap, ◌∙◌, Bool, true, false, Option, none, some, List, arith, bind-some,
  if◌then◌else◌, ◌==◌,
}
use nomad_tasks.Mpmc.{Mpmc, enqueue, dequeue}
use nomad_tasks.Counter.{Added, done_already, waiting, slots_full}
use nomad_tasks.Manager.{
  JobPriority, high, normal, low, io, unnamed, Job, Manager, FiberDestination, nowhere, to_waiting,
  to_pool,
}
use nomad_tasks.Manager.Fibers.{
  find_free_fiber, find_free_fiber-idle, hand_back, cleanup_previous_fiber,
}
use nomad_tasks.Manager.Jobs.{
  Scheduled, Next, Waited, reached, queue_of, set_queue, count_up, count_down, put_job, schedule,
  schedule_job, next_low, or_low, normal_or_low, or_ready, after_high, next_io, next_worker,
  get_next_job, take_ready, go_idle, after_add, wait_in, wait_for_counter,
}

module _ {F : Type 0} where
  -- The manager's flag is as before.
  abbrev pub Flag : Manager F → Manager F → Type 0
  Flag m m' = m'.shutting_down ≡ m.shutting_down

  pub of_same : (m m' : Manager F) → m ≡ m' → Flag m m'
  of_same m m' e = ap (λ x. x.shutting_down) (sym e)

  set_queue-Flag :
      (prio : JobPriority) (q : Mpmc (Job F)) (m : Manager F) → Flag m (set_queue prio q m)
  set_queue-Flag high q m = refl
  set_queue-Flag normal q m = refl
  set_queue-Flag low q m = refl
  set_queue-Flag io q m = refl
  set_queue-Flag (unnamed b) q m = refl

  pub count_up-Flag : (c : Option ℕ) (t : ℕ) (m : Manager F) → Flag m (count_up c t m)
  unfolding count_up
  count_up-Flag none t m = refl
  count_up-Flag (some i) t m = refl

  pub count_down-Flag : (c : Option ℕ) (t : ℕ) (m : Manager F) → Flag m (count_down c t m)
  unfolding count_down
  count_down-Flag none t m = refl
  count_down-Flag (some i) t m = refl

  hand_back-Flag : (d : FiberDestination) (t : ℕ) (m : Manager F) → Flag m (hand_back d t m)
  unfolding hand_back
  hand_back-Flag nowhere t m = refl
  hand_back-Flag to_waiting t m = refl
  hand_back-Flag to_pool t m = refl

  pub cleanup-Flag : (t : ℕ) (m : Manager F) → Flag m (cleanup_previous_fiber t m)
  unfolding cleanup_previous_fiber
  cleanup-Flag t m = hand_back-Flag (m.tls t).previous_destination t m

  put_job-Flag :
      (prio : JobPriority) (job : Job F) (o : Option (Mpmc (Job F))) (m m' : Manager F)
      (r : Scheduled)
      → put_job prio job o m ≡ some (r, m')
      → Flag m m'
  unfolding put_job
  put_job-Flag prio job none m m' r e = let same : m ≡ m' = ground arith in of_same m m' same
  put_job-Flag prio job (some q) m m' r e =
      let (x, d, f) = bind-some (enqueue job q) _ (r, m') e in
      let same : set_queue prio x.1 m ≡ m' = ground arith in
      of_same (set_queue prio x.1 m) m' same ∙ set_queue-Flag prio x.1 m

  schedule-Flag :
      (t : ℕ) (prio : JobPriority) (job : Job F) (o : Option (Mpmc (Job F))) (m m' : Manager F)
      (r : Scheduled)
      → schedule t prio job o m ≡ some (r, m')
      → Flag m m'
  unfolding schedule
  schedule-Flag t prio job none m m' r e = let same : m ≡ m' = ground arith in of_same m m' same
  schedule-Flag t prio job (some q) m m' r e =
      let m₁ = count_up job.counter t m in
      put_job-Flag prio job (queue_of prio m₁) m₁ m' r e ∙ count_up-Flag job.counter t m

  pub schedule_job-Flag :
      (t : ℕ) (prio : JobPriority) (job : Job F) (m m' : Manager F) (r : Scheduled)
      → schedule_job t prio job m ≡ some (r, m')
      → Flag m m'
  unfolding schedule_job
  schedule_job-Flag t prio job m m' r e = schedule-Flag t prio job (queue_of prio m) m m' r e

  next_low-Flag : (m m' : Manager F) (x : Next F) → next_low m ≡ some (x, m') → Flag m m'
  next_low-Flag m m' x e =
      let (r, d, f) = bind-some (dequeue m.low_priority_queue) _ (x, m') e in
      let same : record m { low_priority_queue = r.1 } ≡ m' = ground arith in
      of_same (record m { low_priority_queue = r.1 }) m' same

  or_low-Flag :
      (o : Option (Job F)) (m m' : Manager F) (x : Next F) → or_low o m ≡ some (x, m') → Flag m m'
  or_low-Flag (some job) m m' x e = let same : m ≡ m' = ground arith in of_same m m' same
  or_low-Flag none m m' x e = next_low-Flag m m' x e

  normal_or_low-Flag : (m m' : Manager F) (x : Next F) → normal_or_low m ≡ some (x, m') → Flag m m'
  unfolding normal_or_low
  normal_or_low-Flag m m' x e =
      let (r, d, f) = bind-some (dequeue m.normal_priority_queue) _ (x, m') e in
      or_low-Flag r.0 (record m { normal_priority_queue = r.1 }) m' x f

  or_ready-Flag :
      (t : ℕ) (o : Option (ℕ × List (ℕ × ℕ))) (m m' : Manager F) (x : Next F)
      → or_ready t o m ≡ some (x, m')
      → Flag m m'
  unfolding or_ready
  or_ready-Flag t (some y) m m' x e = ap (λ o. flag_of o) (sym e)
    where
      flag_of : Option (Next F × Manager F) → Bool
      flag_of none = true
      flag_of (some z) = z.1.shutting_down
  or_ready-Flag t none m m' x e = normal_or_low-Flag m m' x e

  after_high-Flag :
      (t : ℕ) (o : Option (Job F)) (m m' : Manager F) (x : Next F)
      → after_high t o m ≡ some (x, m')
      → Flag m m'
  unfolding after_high
  after_high-Flag t (some job) m m' x e = let same : m ≡ m' = ground arith in of_same m m' same
  after_high-Flag t none m m' x e =
      or_ready-Flag t (take_ready m.stored (m.tls t).ready_fibers) m m' x e

  next_io-Flag : (m m' : Manager F) (x : Next F) → next_io m ≡ some (x, m') → Flag m m'
  next_io-Flag m m' x e =
      let (r, d, f) = bind-some (dequeue m.io_queue) _ (x, m') e in
      let same : record m { io_queue = r.1 } ≡ m' = ground arith in
      of_same (record m { io_queue = r.1 }) m' same

  next_worker-Flag :
      (t : ℕ) (m m' : Manager F) (x : Next F) → next_worker t m ≡ some (x, m') → Flag m m'
  unfolding next_worker
  next_worker-Flag t m m' x e =
      let (r, d, f) =
        bind-some (dequeue m.high_priority_queue)
          (λ r. after_high t r.0 (record m { high_priority_queue = r.1 })) (x, m') e in
      after_high-Flag t r.0 (record m { high_priority_queue = r.1 }) m' x f

  pub get_next_job-Flag :
      (t : ℕ) (m m' : Manager F) (x : Next F) → get_next_job t m ≡ some (x, m') → Flag m m'
  unfolding get_next_job
  get_next_job-Flag t m m' x e = either ((m.tls t).is_io) e
    where
      either : (b : Bool) → (if b then next_io m else next_worker t m) ≡ some (x, m') → Flag m m'
      either true e' = next_io-Flag m m' x e'
      either false e' = next_worker-Flag t m m' x e'

  go_idle-Flag : (t : ℕ) (m m' : Manager F) (x : Waited) → go_idle t m ≡ some (x, m') → Flag m m'
  go_idle-Flag t m m' x e =
      let (r, d, f) = bind-some (find_free_fiber m) _ (x, m') e in
      let (_, _, same) = find_free_fiber-idle m r.0 r.1 d in
      ap flag_of (sym f) ∙ ap (λ y. y.shutting_down) same
    where
      flag_of : Option (Waited × Manager F) → Bool
      flag_of none = true
      flag_of (some z) = z.1.shutting_down

  after_add-Flag :
      (t flag : ℕ) (a : Added) (m m' : Manager F) (x : Waited)
      → after_add t flag a m ≡ some (x, m')
      → Flag m m'
  unfolding after_add
  after_add-Flag t flag done_already m m' x e =
      let same : m ≡ m' = ground arith in of_same m m' same
  after_add-Flag t flag slots_full m m' x e = let same : m ≡ m' = ground arith in of_same m m' same
  after_add-Flag t flag waiting m m' x e = go_idle-Flag t _ m' x e

  wait_in-Flag :
      (t i target : ℕ) (m m' : Manager F) (x : Waited)
      → wait_in t i target m ≡ some (x, m')
      → Flag m m'
  unfolding wait_in
  wait_in-Flag t i target m m' x e = after_add-Flag t _ _ _ m' x e

  pub wait_for_counter-Flag :
      (t : ℕ) (c : Option ℕ) (target : ℕ) (m m' : Manager F) (x : Waited)
      → wait_for_counter t c target m ≡ some (x, m')
      → Flag m m'
  unfolding wait_for_counter
  wait_for_counter-Flag t none target m m' x e =
      let same : m ≡ m' = ground arith in of_same m m' same
  wait_for_counter-Flag t (some i) target m m' x e = either ((m.counters i).value == target) e
    where
      either :
          (b : Bool)
          → (if b then some (reached, m) else wait_in t i target m) ≡ some (x, m')
          → Flag m m'
      either true e' = let same : m ≡ m' = ground arith in of_same m m' same
      either false e' = wait_in-Flag t i target m m' x e'
