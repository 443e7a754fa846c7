-- ===== src/Delegate/Apply.antt =====
-- `apply` (detail.h) hands the arguments over as they are: all of them, in order.
use nomad_tasks.Prelude.{
  ◌>>=◌, ℕ, zero, suc, ◌≤◌, ◌<◌, ◌≡◌, refl, ap, ◌∙◌, Option, some, none, List, [], ◌∷◌, ◌++◌,
  length, get_elem?, arith,
}
use nomad_tasks.Delegate.{make_index_tuple, get_all, apply}

module _ {A : Type 0} where
  -- The first `n` of a list.
  abbrev first : ℕ → List A → List A
  first zero xs = []
  first (suc n) [] = []
  first (suc n) (x ∷ xs) = x ∷ first n xs

  first-length : (xs : List A) → first (length xs) xs ≡ xs
  first-length [] = refl
  first-length (x ∷ xs) = ap (λ l. x ∷ l) (first-length xs)

  first-suc :
      (n : ℕ) (xs : List A)
      → n < length xs
      → (x : A) × (get_elem? xs n ≡ some x) × (first (suc n) xs ≡ first n xs ++ (x ∷ []))
  first-suc n [] h = absurd (omega arith)
  first-suc zero (x ∷ xs) h = (x, refl, refl)
  first-suc (suc n) (x ∷ xs) h =
      let (y, a, b) = first-suc n xs (omega arith) in (y, a, ap (λ l. x ∷ l) b)

  get_all-snoc :
      (tuple : List A) (is : List ℕ) (i : ℕ) (xs : List A) (x : A)
      → get_all tuple is ≡ some xs
      → get_elem? tuple i ≡ some x
      → get_all tuple (is ++ (i ∷ [])) ≡ some (xs ++ (x ∷ []))
  unfolding get_all
  get_all-snoc tuple [] i xs x a b = rw b (ap (λ l. l >>= λ ys. some (ys ++ (x ∷ []))) a)
  get_all-snoc tuple (k ∷ is) i xs x a b =
      split (get_elem? tuple k) (get_all tuple is) a (λ ys e. get_all-snoc tuple is i ys x e b)
    where
      split :
          (o : Option A) (r : Option (List A))
          → (o >>= λ y. r >>= λ ys. some (y ∷ ys)) ≡ some xs
          → ((ys : List A) → r ≡ some ys → get_all tuple (is ++ (i ∷ [])) ≡ some (ys ++ (x ∷ [])))
          → (o >>= λ y. get_all tuple (is ++ (i ∷ [])) >>= λ ys. some (y ∷ ys))
            ≡ some (xs ++ (x ∷ []))
      split none r e again = absurd (ground arith)
      split (some y) none e again = absurd (ground arith)
      split (some y) (some ys) e again =
          let all : y ∷ ys ≡ xs = ground arith in
          rw (again ys refl) (ap (λ l. some (l ++ (x ∷ []))) all)

  get_all-make_index_tuple :
      (n : ℕ) (tuple : List A)
      → n ≤ length tuple
      → get_all tuple (make_index_tuple n) ≡ some (first n tuple)
  unfolding make_index_tuple get_all
  get_all-make_index_tuple zero tuple h = refl
  get_all-make_index_tuple (suc n) tuple h =
      let (x, a, b) = first-suc n tuple (omega arith) in
      rw b (
        get_all-snoc tuple (make_index_tuple n) n (first n tuple) x
          (get_all-make_index_tuple n tuple (omega arith)) a)

  -- `apply` calls with exactly the arguments of the tuple, in order.
  pub apply_lem : (args : List A) → apply args ≡ some args
  unfolding apply
  apply_lem args =
      get_all-make_index_tuple (length args) args (omega arith) ∙ ap some (first-length args)
