-- ===== src/Manager/Threads/Stopped.antt =====
-- The joins of `Shutdown` (Manager.cpp).
use nomad_tasks.Prelude.{
  ℕ, zero, suc, ◌+◌, ◌-◌, ◌≤◌, ◌<◌, ◌≡◌, ◌≢◌, ◌⊎◌, Bool, true, false, some, List, [], ◌∷◌, arith,
  Bool-cases, inl, inr, if◌then◌else◌, ◌==◌, ==→eq,
}
use nomad_tasks.Thread.{no_id, has_spawned}
use nomad_tasks.Manager.Threads.{Threads, search_id, joined, get_current, shutdown_all}

-- The list of threads that are waited for has thread `i`.
abbrev pub JoinedBy : ℕ → List ℕ → Type 0
JoinedBy i [] = ⊥
JoinedBy i (j ∷ js) = (j ≡ i) ⊎ JoinedBy i js

search_id-found :
    (n i : ℕ) (id : ℕ → ℕ) (c j : ℕ) → search_id n i id c ≡ some j → (id j ≡ c) × (j < i + n)
unfolding search_id
search_id-found zero i id c j e = absurd (ground arith)
search_id-found (suc n) i id c j e = elim (Bool-cases (id i == c)) [
  | inl w ↦ ground arith
  | inr w ↦ ground (arith, search_id-found n (i + 1) id c j)
]

JoinedBy-more :
    (b : Bool) (i j : ℕ) (l : List ℕ) → JoinedBy j l → JoinedBy j (if b then i ∷ l else l)
JoinedBy-more true i j l h = inr h
JoinedBy-more false i j l h = h

joined-spawned :
    (n i : ℕ) (id : ℕ → ℕ) (j : ℕ) → i ≤ j → j < i + n → id j ≢ no_id → JoinedBy j (joined n i id)
unfolding joined
joined-spawned zero i id j ge lt ne = absurd (omega arith)
joined-spawned (suc n) i id j ge lt ne = elim (Bool-cases (i == j)) [
  | inl here ↦
      let same = ==→eq i j here in
      let there : has_spawned (id i) ≡ true = ground arith in rw there (inl same)
  | inr later ↦
      JoinedBy-more (has_spawned (id i)) i j (joined n (i + 1) id)
        (joined-spawned n (i + 1) id j (ground arith) (omega arith) ne)
]

module _ {F : Type 0} (s : Threads F) (calling i : ℕ) where
  -- `Shutdown`, blocking, called on any of the manager's threads but the first, waits for the end of
  -- that very thread.
  pub shutdown_all_self :
      calling ≢ no_id → get_current calling s ≡ some i → 1 ≤ i → JoinedBy i (shutdown_all true s).0
  unfolding shutdown_all get_current
  shutdown_all_self real e ge =
      let (same, lt) = search_id-found s.manager.num_threads 0 s.id calling i e in
      joined-spawned (s.manager.num_threads - 1) 1 s.id i ge (omega arith)
        (λ x. real (ground arith))
