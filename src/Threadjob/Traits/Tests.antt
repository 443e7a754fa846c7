-- ===== src/Threadjob/Traits/Tests.antt =====
-- A class whose call operator takes a pointer to an object of class 0.
use nomad_tasks.Prelude.{◌≡◌, refl, true, some, none, [], ◌∷◌, ◌==◌, if◌then◌else◌}
use nomad_tasks.Callable.{
  CppTypes, class_type, pointer, member, nil, cons, Classes, Traits, function_type_traits,
  member_traits, function_traits,
}
use nomad_tasks.Threadjob.Traits.{
  JobTraits, reference, plain, typed, call_traits, functor_traits, signature_traits,
  job_function_traits,
}
use nomad_tasks.Threadjob.Traits.Agreement.{Agree, job_function_traits-Agree}

abbrev one_param : CppTypes
one_param = cons (pointer (class_type 0)) nil

abbrev program : Classes
program = record {
  call_operator = λ n. if n == 1 then some (member true 1 (class_type 0) one_param) else none;
  trivial_class = λ n. true;
}

abbrev functor : JobTraits
functor =
    functor_traits
      (signature_traits (class_type 0) (reference 1 ∷ plain (pointer (class_type 0)) ∷ []))

made : job_function_traits program (typed (class_type 1)) ≡ some functor
unfolding job_function_traits call_traits
made = refl

-- One argument, of a pointer type; but `argT::args` has the object too.
arity_and_args :
    (functor.arity ≡ 1)
    × (functor.argument 0 ≡ some (plain (pointer (class_type 0))))
    × (functor.argument 1 ≡ none)
    × (functor.args ≡ reference 1 ∷ plain (pointer (class_type 0)) ∷ [])
arity_and_args = (refl, refl, refl, refl)

abbrev fiber_traits : Traits
fiber_traits = function_type_traits (class_type 0) one_param

of_fiber : function_traits program (class_type 1) ≡ some fiber_traits
unfolding function_traits member_traits
of_fiber = refl

job_function_traits-Agree_example :
    (u : JobTraits) × (job_function_traits program (typed (class_type 1)) ≡ some u)
    × Agree fiber_traits u
job_function_traits-Agree_example =
    job_function_traits-Agree program (class_type 1) fiber_traits of_fiber
