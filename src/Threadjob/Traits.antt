-- ===== src/Threadjob/Traits.antt =====
-- code/threadjob/include/threadjob/JobFunctionTraits.h: what the job system works out of the type of a
-- callback, by which it chooses the type of its job (include/threadjob/Manager.h). Types are those of
-- Callable.antt.
pub mod Agreement
pub mod Tests
use nomad_tasks.Prelude.{
  ◌>>=◌, ℕ, zero, suc, ◌+◌, ◌-◌, Option, some, none, List, [], ◌∷◌, length, get_elem?, ltb,
  if◌then◌else◌,
}
use nomad_tasks.Callable.{
  CppType, CppTypes, class_type, pointer, function, member, nil, cons, Classes,
}

-- A type of an argument: `C &`, or a type that is no reference.
pub data Argument : Type 0 where
  reference : (of : ℕ) → Argument
  plain : CppType → Argument

abbrev pub plains : CppTypes → List Argument
plains nil = []
plains (cons t ts) = plain t ∷ plains ts

-- The types that `job_function_traits` has cases for; `member_object` is `Ret C::*`, a member that is no
-- function.
pub data JobFunction : Type 0 where
  typed : CppType → JobFunction
  member_object : (of : ℕ) (ret : CppType) → JobFunction

-- `job_function_traits`: `argT::args`, `return_type`, `arity` and `argument<N>::type`, where `none` is a
-- failed assertion.
pub record JobTraits : Type 0 where
  pub args : List Argument
  pub return_type : CppType
  pub arity : ℕ
  pub argument : ℕ → Option Argument

-- `R(Args...)`
abbrev pub signature_traits : CppType → List Argument → JobTraits
signature_traits ret args = record {
  args = args;
  return_type = ret;
  arity = length args;
  argument = λ n. get_elem? args n;
}

-- A pointer to a member function.
unfoldable pub call_traits : CppType → Option JobTraits
call_traits (member is_const of ret args) = some (signature_traits ret (reference of ∷ plains args))
call_traits _ = none

-- A class with a call operator; `call_type` is what `&F::operator()` has.
abbrev pub functor_traits : JobTraits → JobTraits
functor_traits call_type = record {
  args = call_type.args;
  return_type = call_type.return_type;
  arity = call_type.arity - 1;
  argument = λ n. if ltb n (call_type.arity - 1) then call_type.argument (n + 1) else none;
}

module _ (env : Classes) where
  -- `none` is an error of the compiler's.
  unfoldable pub job_function_traits : JobFunction → Option JobTraits
  unfolding call_traits
  job_function_traits (typed (pointer (function ret args))) =
      some (signature_traits ret (plains args))
  job_function_traits (typed (function ret args)) = some (signature_traits ret (plains args))
  job_function_traits (typed (member is_const of ret args)) =
      call_traits (member is_const of ret args)
  job_function_traits (typed (class_type t)) = do
    call ← env.call_operator t
    call_type ← call_traits call
    some (functor_traits call_type)
  job_function_traits (typed (pointer t)) = none
  job_function_traits (member_object of ret) = some (signature_traits ret (reference of ∷ []))
