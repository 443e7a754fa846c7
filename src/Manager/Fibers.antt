-- ===== src/Manager/Fibers.antt =====
-- The pool of fibers (Manager.cpp): `FindFreeFiber` and `CleanupPreviousFiber`.
use nomad_tasks.Prelude.{
  ◌>>=◌, ℕ, zero, suc, ◌+◌, ◌≤◌, ◌<◌, ◌≡◌, refl, sym, Bool, true, false, Option, some, none, arith,
  Bool-cases, inl, inr, if◌then◌else◌, update, dec_lt, ◌&&◌, not,
}
use nomad_tasks.Manager.{Manager, FiberDestination, nowhere, to_waiting, to_pool, cleanup, set_tls}

-- One pass of `FindFreeFiber` over the fibers, from `i` with `n` left.
unfoldable pub find_free : ℕ → ℕ → (ℕ → Bool) → Option ℕ
find_free zero i idle = none
find_free (suc n) i idle = let next = find_free n (i + 1) idle in if idle i then some i else next

-- The passes of `FindFreeFiber` over `n` fibers. In one of them the compare-exchange fails spuriously at
-- the fibers `fails`; where it leaves none, a later one, without such a failure, finds the first that is
-- idle. Passes that fail at every idle fiber change nothing, so that these two say all.
unfoldable pub or_again : Option ℕ → ℕ → (ℕ → Bool) → Option ℕ
unfolding find_free
or_again (some i) n idle = some i
or_again none n idle = find_free n 0 idle

unfoldable pub find_passes : ℕ → (ℕ → Bool) → (ℕ → Bool) → Option ℕ
unfolding find_free or_again
find_passes n idle fails = or_again (find_free n 0 (λ i. idle i && not (fails i))) n idle

module _ {F : Type 0} where
  -- The effect of a compare-exchange of a fiber's flag that succeeds.
  abbrev pub take_fiber : ℕ → Manager F → Manager F
  take_fiber i m = record m { idle_fibers = update m.idle_fibers i false }

  -- `FindFreeFiber`; `none` means that no fiber is idle, where the code looks again until another
  -- thread gives one back.
  unfoldable pub find_free_fiber : Manager F → Option (ℕ × Manager F)
  unfolding find_passes
  find_free_fiber m = do
    i ← find_passes m.num_fibers m.idle_fibers m.weak_fails
    some (i, take_fiber i m)

  -- What `CleanupPreviousFiber` does with the fiber that thread `t` has left.
  unfoldable pub hand_back : FiberDestination → ℕ → Manager F → Manager F
  hand_back nowhere t m = m
  hand_back to_pool t m =
      set_tls t (cleanup (m.tls t))
        (record m { idle_fibers = update m.idle_fibers (m.tls t).previous_fiber true })
  hand_back to_waiting t m =
      set_tls t (cleanup (m.tls t))
        (record m { stored = update m.stored (m.tls t).previous_stored true })

  unfoldable pub cleanup_previous_fiber : ℕ → Manager F → Manager F
  unfolding hand_back
  cleanup_previous_fiber t m = hand_back (m.tls t).previous_destination t m

find_free-found :
    (n i j : ℕ) (idle : ℕ → Bool)
    → find_free n i idle ≡ some j
    → (i ≤ j) × (j < i + n) × (idle j ≡ true)
unfolding find_free
find_free-found zero i j idle e = absurd (ground arith)
find_free-found (suc n) i j idle e = elim (Bool-cases (idle i)) [
  | inl w ↦ ground arith
  | inr w ↦ ground (arith, find_free-found n (i + 1) j idle)
]

find_free-missed :
    (n i : ℕ) (idle : ℕ → Bool)
    → find_free n i idle ≡ none
    → (a : ℕ) → i ≤ a
    → a < i + n
    → idle a ≡ false
unfolding find_free
find_free-missed zero i idle e a ge lt = absurd (omega arith)
find_free-missed (suc n) i idle e a ge lt = elim (Bool-cases (idle i)) [
  | inl w ↦ absurd (ground arith)
  | inr w ↦ elim (dec_lt i a) [
    | yes later ↦ find_free-missed n (i + 1) idle (ground arith) a (omega arith) (omega arith)
    | no here ↦ let same : i ≡ a = omega arith in rw (← same) w
  ]
]

find_passes-found :
    (n j : ℕ) (idle fails : ℕ → Bool)
    → find_passes n idle fails ≡ some j
    → (j < n) × (idle j ≡ true)
unfolding find_passes or_again
find_passes-found n j idle fails e = at_first (find_free n 0 (λ i. idle i && not (fails i))) refl e
  where
    at_first :
        (r : Option ℕ)
        → find_free n 0 (λ i. idle i && not (fails i)) ≡ r
        → or_again r n idle ≡ some j
        → (j < n) × (idle j ≡ true)
    at_first none f e' = let (ge, lt, w) = find_free-found n 0 j idle e' in (ground arith, w)
    at_first (some i) f e' =
        let same : i ≡ j = ground arith in
        let (ge, lt, w) = find_free-found n 0 i (λ i. idle i && not (fails i)) f in
        (ground arith, rw (← same) (ground (arith, w)))

find_passes-missed :
    (n : ℕ) (idle fails : ℕ → Bool)
    → find_passes n idle fails ≡ none
    → (a : ℕ) → a < n
    → idle a ≡ false
unfolding find_passes or_again
find_passes-missed n idle fails e a lt = at_first (find_free n 0 (λ i. idle i && not (fails i))) e
  where
    at_first : (r : Option ℕ) → or_again r n idle ≡ none → idle a ≡ false
    at_first none e' = find_free-missed n 0 idle e' a (omega arith) (omega arith)
    at_first (some i) e' = absurd (ground arith)

module _ {F : Type 0} (m : Manager F) where
  abbrev after_scan : Option ℕ → Option (ℕ × Manager F)
  after_scan r = r >>= λ j. some (j, take_fiber j m)

  -- The fiber that `FindFreeFiber` gives is one of the pool, was idle, and is not idle after; all
  -- other fibers are as before.
  pub find_free_fiber-idle :
      (i : ℕ) (m' : Manager F)
      → find_free_fiber m ≡ some (i, m')
      → (i < m.num_fibers) × (m.idle_fibers i ≡ true) × (m' ≡ take_fiber i m)
  unfolding find_free_fiber
  find_free_fiber-idle i m' e =
      at_result (find_passes m.num_fibers m.idle_fibers m.weak_fails) refl e
    where
      at_result :
          (r : Option ℕ)
          → find_passes m.num_fibers m.idle_fibers m.weak_fails ≡ r
          → after_scan r ≡ some (i, m')
          → (i < m.num_fibers) × (m.idle_fibers i ≡ true) × (m' ≡ take_fiber i m)
      at_result none f e' = absurd (ground arith)
      at_result (some j) f e' =
          let (lt, idle) = find_passes-found m.num_fibers j m.idle_fibers m.weak_fails f in
          let same : j ≡ i = ground arith in
          let left : take_fiber j m ≡ m' = ground arith in
          (ground arith, rw (← same) idle, rw (← same) (sym left))

  -- With an idle fiber in the pool `FindFreeFiber` finds one.
  pub find_free_fiber-total :
      (i : ℕ)
      → i < m.num_fibers
      → m.idle_fibers i ≡ true
      → (j : ℕ) × (m' : Manager F) × (find_free_fiber m ≡ some (j, m'))
  unfolding find_free_fiber
  find_free_fiber-total i lt idle =
      at_result (find_passes m.num_fibers m.idle_fibers m.weak_fails) refl
    where
      at_result :
          (r : Option ℕ)
          → find_passes m.num_fibers m.idle_fibers m.weak_fails ≡ r
          → (j : ℕ) × (m' : Manager F) × (find_free_fiber m ≡ some (j, m'))
      at_result none f =
          absurd (ground (arith, find_passes-missed m.num_fibers m.idle_fibers m.weak_fails f i))
      at_result (some j) f = (j, take_fiber j m, rw f refl)
