-- ===== src/Manager/Threads/Setup.antt =====
-- `SetupThread` (Manager.cpp) on a thread that the manager did not spawn.
use nomad_tasks.Prelude.{
  ℕ, zero, suc, ◌+◌, ◌≤◌, ◌<◌, ◌≡◌, ◌≢◌, refl, ap, true, false, some, none, arith, Bool-cases, inl,
  inr, update, update_self, update_ne, ltb, ◌==◌, ==-refl, ==→eq,
}
use nomad_tasks.Thread.{no_id, has_spawned}
use nomad_tasks.Manager.{Tls, set_tls}
use nomad_tasks.Manager.Fibers.{take_fiber, find_free_fiber-idle, find_free_fiber-total}
use nomad_tasks.Manager.Threads.{
  Threads, search_id, get_current, get_current_thread_index, take_over, setup_thread, or_max,
}

-- A thread that is not found is found at the index where its number is then entered.
search_id-update :
    (n i : ℕ) (id : ℕ → ℕ) (c idx : ℕ)
    → search_id n i id c ≡ none
    → i ≤ idx
    → idx < i + n
    → search_id n i (update id idx c) c ≡ some idx
unfolding search_id
search_id-update zero i id c idx e ge lt = absurd (omega arith)
search_id-update (suc n) i id c idx e ge lt = elim (Bool-cases (idx == i)) [
  | inl here ↦ let same = ==→eq idx i here in rw (here, ==-refl c, same) refl
  | inr later ↦ elim (Bool-cases (id i == c)) [
    | inl w ↦ absurd (ground arith)
    | inr w ↦
        rw (later, w)
          (search_id-update n (i + 1) id c idx (ground arith) (ground arith) (omega arith))
  ]
]

module _ {F : Type 0} (s : Threads F) (calling idx : ℕ) where
  -- What `SetupThread` leaves: the thread is found at its index, and has a fiber that was idle and is
  -- no more; no other thread's number or record has changed.
  abbrev pub SetUp : Threads F → Type 0
  SetUp s' =
      (get_current_thread_index calling s' ≡ idx)
      × (s.manager.idle_fibers (s'.manager.tls idx).current_fiber ≡ true)
      × (s'.manager.idle_fibers (s'.manager.tls idx).current_fiber ≡ false)
      × ((u : ℕ) → idx ≢ u → (s'.id u ≡ s.id u) × (s'.manager.tls u ≡ s.manager.tls u))

  -- `SetupThread`, called on a thread that the manager does not know, for an index below the number of
  -- threads whose object has no thread yet and whose record has that index, comes to an end where the
  -- pool has an idle fiber, with the result true. From then on the calling thread is the one at the
  -- index, it has a fiber that was idle and is not any more, and no other thread has changed.
  pub setup_thread_lem :
      (f : ℕ)
      → idx < s.manager.num_threads
      → s.id idx ≡ no_id
      → get_current calling s ≡ none
      → (s.manager.tls idx).thread_index ≡ idx
      → f < s.manager.num_fibers
      → s.manager.idle_fibers f ≡ true
      → (s' : Threads F) × (setup_thread calling idx s ≡ some (true, s')) × SetUp s'
  unfolding setup_thread take_over get_current get_current_thread_index
  setup_thread_lem f lt fresh unknown index flt idle =
      let (g, m', e) = find_free_fiber-total s.manager f flt idle in
      let (glt, was_idle, e') = find_free_fiber-idle s.manager g m' e in
      let found : search_id s.manager.num_threads 0 (update s.id idx calling) calling ≡ some idx =
        search_id-update s.manager.num_threads 0 s.id calling idx unknown (omega arith)
          (omega arith) in
      let l : Tls = record ((take_fiber g s.manager).tls idx) { current_fiber = g } in
      let s' : Threads F = record {
        manager = set_tls idx l (take_fiber g s.manager);
        id = update s.id idx calling;
      } in
      let own : update s.manager.tls idx l idx ≡ l = update_self s.manager.tls idx l in
      let not_spawned : has_spawned (s.id idx) ≡ false = rw fresh refl in
      let right_index : ((s.manager.tls idx).thread_index == idx) ≡ true = rw index (==-refl idx) in
      let in_range : ltb idx s.manager.num_threads ≡ true = ground arith in
      (
        s',
        rw (in_range, not_spawned, unknown, found, right_index, e, e') refl,
        (
          ap or_max found,
          rw own was_idle,
          rw own (update_self s.manager.idle_fibers g false),
          λ u ne. (update_ne s.id calling ne, update_ne s.manager.tls l ne),
        ),
      )
