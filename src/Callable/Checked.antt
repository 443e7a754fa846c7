-- ===== src/Callable/Checked.antt =====
-- What `function_checker` (function_checks.h) lets pass.
use nomad_tasks.Prelude.{
  ◌>>=◌, ℕ, ◌+◌, ◌≡◌, refl, ap, ap₂, ◌∙◌, true, Option, some, none, ◌==◌, ==-refl, arith,
  Bool-cases, inl, inr,
}
use nomad_tasks.Callable.{
  CppType, CppTypes, class_type, pointer, function, member, nil, cons, Classes, Traits, count,
  member_traits, without_this, function_traits, is_callable, is_trivial, same_type, passed,
  argument_checker, check_args, function_checker,
}
use nomad_tasks.Callable.Equal.{same_type-eq, same_type_self}

module _ (env : Classes) where
  abbrev pub AllTrivial : CppTypes → Type 0
  AllTrivial nil = Unit {0}
  AllTrivial (cons t ts) = (is_trivial env t ≡ true) × AllTrivial ts

  -- The type is callable, its parameters are exactly the given types, and those are trivial.
  abbrev pub Accepts : CppType → CppTypes → Type 0
  Accepts callable actual =
      (t : Traits) × (is_callable env callable ≡ true)
      × (function_traits env callable ≡ some t)
      × (t.args ≡ actual)
      × AllTrivial actual

  argument_checker-passed :
      (i : ℕ) (expected actual : CppTypes)
      → argument_checker env i expected actual ≡ passed
      → (expected ≡ actual) × AllTrivial actual
  unfolding argument_checker
  argument_checker-passed i nil nil h = (refl, tt)
  argument_checker-passed i nil (cons a as_) h = cc
  argument_checker-passed i (cons e es) nil h = cc
  argument_checker-passed i (cons e es) (cons a as_) h = elim (Bool-cases (same_type e a)) [
    | inr other ↦ let x = rw other at h in cc
    | inl same ↦ elim (Bool-cases (is_trivial env a)) [
      | inr not_so ↦ let x = rw (same, not_so) at h in cc
      | inl so ↦
          let (eq, all) = argument_checker-passed (i + 1) es as_ (rw (same, so) at h) in
          (ap₂ cons (same_type-eq e a same) eq, (so, all))
    ]
  ]

  argument_checker_self :
      (i : ℕ) (ts : CppTypes) → AllTrivial ts → argument_checker env i ts ts ≡ passed
  unfolding argument_checker
  argument_checker_self i nil h = refl
  argument_checker_self i (cons t ts) (a, h) =
      rw (same_type_self t, a) (argument_checker_self (i + 1) ts h)

  member_traits-num_args :
      (c : CppType) (t : Traits)
      → (member_traits env c >>= without_this env) ≡ some t
      → t.num_args ≡ count t.args
  unfolding member_traits
  member_traits-num_args (member k n r args) t h = ground arith
  member_traits-num_args c t h = absurd (ground arith)

  functor-num_args :
      (o : Option CppType) (t : Traits)
      → (o >>= λ c. member_traits env c >>= without_this env) ≡ some t
      → t.num_args ≡ count t.args
  functor-num_args none t h = absurd (ground arith)
  functor-num_args (some c) t h = member_traits-num_args c t h

  -- `num_args` is the number of `args`.
  pub function_traits-num_args :
      (c : CppType) (t : Traits) → function_traits env c ≡ some t → t.num_args ≡ count t.args
  unfolding function_traits member_traits
  function_traits-num_args (class_type n) t h = functor-num_args (env.call_operator n) t h
  function_traits-num_args (pointer (function r args)) t h = ground arith
  function_traits-num_args (function r args) t h = ground arith
  function_traits-num_args (member k n r args) t h = ground arith
  function_traits-num_args (pointer c) t h = absurd (ground arith)

  -- A call whose checks pass calls something callable, with arguments of exactly its parameters' types,
  -- all of them trivial.
  pub function_checker-Accepts :
      (callable : CppType) (actual : CppTypes)
      → function_checker env callable actual ≡ passed
      → Accepts callable actual
  unfolding function_checker
  function_checker-Accepts callable actual h = elim (Bool-cases (is_callable env callable)) [
    | inr not_so ↦ let x = rw not_so at h in cc
    | inl so ↦ with_traits (function_traits env callable) refl (rw so at h) so
  ]
    where
      with_traits :
          (o : Option Traits)
          → function_traits env callable ≡ o
          → check_args env o actual ≡ passed
          → is_callable env callable ≡ true
          → Accepts callable actual
      with_traits none e x so = cc
      with_traits (some t) e x so = elim (Bool-cases (t.num_args == count actual)) [
        | inr other ↦ let y = rw other at x in cc
        | inl same ↦
            let (eq, all) = argument_checker-passed 0 t.args actual (rw same at x) in
            (t, so, e, eq, all)
      ]

  -- Every such call passes.
  pub Accepts-function_checker :
      (callable : CppType) (actual : CppTypes)
      → Accepts callable actual
      → function_checker env callable actual ≡ passed
  unfolding function_checker
  Accepts-function_checker callable actual (t, so, e, eq, all) =
      let n : t.num_args ≡ count actual = function_traits-num_args callable t e ∙ ap count eq in
      rw (so, e, n, ==-refl (count actual), eq) (argument_checker_self 0 actual all)
