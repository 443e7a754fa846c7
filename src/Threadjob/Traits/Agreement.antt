-- ===== src/Threadjob/Traits/Agreement.antt =====
-- The traits of code/threadjob (JobFunctionTraits.h) and of code/fiber (detail/function_traits.h).
use nomad_tasks.Prelude.{
  ◌>>=◌, ℕ, zero, suc, ◌+◌, ◌-◌, ◌≤◌, ◌≡◌, refl, sym, ap, Option, some, none, ◌∷◌, length,
  get_elem?, ltb, arith, Bool-cases, inl, inr,
}
use nomad_tasks.Callable.{
  CppType, CppTypes, class_type, pointer, function, member, nil, cons, Classes, Traits,
  function_type_traits, count, member_traits, without_this, function_traits,
}
use nomad_tasks.Threadjob.Traits.{
  Argument, reference, plain, plains, typed, JobTraits, signature_traits, call_traits,
  functor_traits, job_function_traits,
}

-- `tuple_element`
abbrev pub type_at : CppTypes → ℕ → Option CppType
type_at nil n = none
type_at (cons t ts) zero = some t
type_at (cons t ts) (suc n) = type_at ts n

-- An argument as code/fiber has it, which takes `C *` for `C &`.
abbrev pub as_pointer : Argument → CppType
as_pointer (reference of) = pointer (class_type of)
as_pointer (plain t) = t

-- The two traits have the same return type and the same arguments.
pub record Agree (t : Traits) (u : JobTraits) : Type 0 where
  pub return_type : u.return_type ≡ t.return_type
  pub arity : u.arity ≡ t.num_args
  pub argument : (n : ℕ) → (u.argument n >>= λ a. some (as_pointer a)) ≡ type_at t.args n

length-plains : (ts : CppTypes) → length (plains ts) ≡ count ts
length-plains nil = refl
length-plains (cons t ts) = ap suc (length-plains ts)

plains-type_at :
    (ts : CppTypes) (n : ℕ) → (get_elem? (plains ts) n >>= λ a. some (as_pointer a)) ≡ type_at ts n
plains-type_at nil n = refl
plains-type_at (cons t ts) zero = refl
plains-type_at (cons t ts) (suc n) = plains-type_at ts n

type_at-end : (ts : CppTypes) (n : ℕ) → count ts ≤ n → type_at ts n ≡ none
type_at-end nil n ge = refl
type_at-end (cons t ts) zero ge = absurd (omega arith)
type_at-end (cons t ts) (suc n) ge = type_at-end ts n (omega arith)

function-Agree :
    (ret : CppType) (ts : CppTypes)
    → Agree (function_type_traits ret ts) (signature_traits ret (plains ts))
function-Agree ret ts = record {
  return_type = refl;
  arity = length-plains ts;
  argument = plains-type_at ts;
}

module _ (of : ℕ) (ret : CppType) (ts : CppTypes) where
  abbrev member_args : JobTraits
  member_args = signature_traits ret (reference of ∷ plains ts)

  member-Agree : Agree (function_type_traits ret (cons (pointer (class_type of)) ts)) member_args
  member-Agree = record { return_type = refl; arity = ap suc (length-plains ts); argument = each }
    where
      each :
          (n : ℕ)
          → (member_args.argument n >>= λ a. some (as_pointer a))
            ≡ type_at (cons (pointer (class_type of)) ts) n
      each zero = refl
      each (suc n) = plains-type_at ts n

  functor-Agree :
      Agree
        (record { args = ts; return_type = ret; num_args = suc (count ts) - 1 })
        (functor_traits member_args)
  functor-Agree = record {
    return_type = refl;
    arity = ap (λ n. suc n - 1) (length-plains ts);
    argument = λ n. elim (Bool-cases (ltb n (suc (length (plains ts)) - 1))) [
      | inl inside ↦
          let next : n + 1 ≡ suc n = omega arith in rw (inside, next) (plains-type_at ts n)
      | inr outside ↦ rw outside (sym (type_at-end ts n (ground (arith, length-plains ts))))
    ];
  }

module _ (env : Classes) where
  -- Where the traits of code/fiber are those of a callable, those of code/threadjob are too, with the
  -- same return type, as many arguments and the same types of arguments, but for a reference to the
  -- object of a member function in place of a pointer.
  pub job_function_traits-Agree :
      (callable : CppType) (t : Traits)
      → function_traits env callable ≡ some t
      → (u : JobTraits) × (job_function_traits env (typed callable) ≡ some u) × Agree t u
  unfolding function_traits member_traits job_function_traits call_traits
  job_function_traits-Agree (pointer (function ret ts)) t e =
      let same : function_type_traits ret ts ≡ t = ground arith in
      (signature_traits ret (plains ts), refl, rw (← same) (function-Agree ret ts))
  job_function_traits-Agree (function ret ts) t e =
      let same : function_type_traits ret ts ≡ t = ground arith in
      (signature_traits ret (plains ts), refl, rw (← same) (function-Agree ret ts))
  job_function_traits-Agree (member is_const of ret ts) t e =
      let same : function_type_traits ret (cons (pointer (class_type of)) ts) ≡ t = ground arith in
      (member_args of ret ts, refl, rw (← same) (member-Agree of ret ts))
  job_function_traits-Agree (class_type k) t e = at_call (env.call_operator k) refl e
    where
      at_call :
          (o : Option CppType)
          → env.call_operator k ≡ o
          → (o >>= λ call. member_traits env call >>= without_this env) ≡ some t
          → (u : JobTraits) × ((o >>= λ call. call_traits call >>= λ c. some (functor_traits c))
              ≡ some u)
            × Agree t u
      at_call none h e' = absurd (ground arith)
      at_call (some (member is_const of ret ts)) h e' =
          let same : record { args = ts; return_type = ret; num_args = suc (count ts) - 1 } ≡ t =
            ground arith in
          (functor_traits (member_args of ret ts), refl, rw (← same) (functor-Agree of ret ts))
      at_call (some c) h e' = absurd (ground arith)
  job_function_traits-Agree (pointer c) t e = absurd (ground arith)
