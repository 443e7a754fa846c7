-- ===== src/Delegate/Tests.antt =====
-- A function of two numbers, and a class with a call operator.
use nomad_tasks.Prelude.{ℕ, ◌≤◌, ◌≡◌, refl, true, some, none, List, [], ◌∷◌, ◌==◌, if◌then◌else◌}
use nomad_tasks.Callable.{
  CppType, CppTypes, class_type, pointer, function, member, nil, cons, Classes, passed,
  type_mismatch, function_checker,
}
use nomad_tasks.Callable.Checked.{Accepts, function_checker-Accepts, Accepts-function_checker}
use nomad_tasks.Manager.{Job}
use nomad_tasks.Delegate.{
  Value, Callee, function_pointer, Delegate, delegate_callable, calls, call_delegate, buffer_size,
  job_info,
}
use nomad_tasks.Delegate.Stored.{job_info-calls}

-- Class 0 stands for `int`, class 1 for a lambda that takes an `int` and a pointer to one.
abbrev int_type : CppType
int_type = class_type 0

abbrev two_params : CppTypes
two_params = cons int_type (cons (pointer int_type) nil)

abbrev program : Classes
program = record {
  call_operator = λ n. if n == 1 then some (member true 1 int_type two_params) else none;
  trivial_class = λ n. n == 0;
}

abbrev two_args : List (Value ℕ)
two_args =
    record { type_of = int_type; content = 5 }
    ∷ record { type_of = pointer int_type; content = 6 }
    ∷ []

lambda_passes : function_checker program (class_type 1) two_params ≡ passed
unfolding function_checker
lambda_passes = refl

swapped_fails :
    function_checker program (class_type 1) (cons (pointer int_type) (cons int_type nil))
    ≡ type_mismatch 0
unfolding function_checker
swapped_fails = refl

function_checker-Accepts_example : Accepts program (class_type 1) two_params
function_checker-Accepts_example =
    function_checker-Accepts program (class_type 1) two_params lambda_passes

lambda-Accepts : Accepts program (class_type 1) two_params
lambda-Accepts = function_checker-Accepts program (class_type 1) two_params lambda_passes

Accepts-function_checker_example : function_checker program (class_type 1) two_params ≡ passed
Accepts-function_checker_example =
    Accepts-function_checker program (class_type 1) two_params lambda-Accepts

abbrev callee : Callee ℕ
callee = function_pointer int_type two_params 40

abbrev stored : Job (Delegate ℕ)
stored = record { callback = some (delegate_callable 40 two_args); counter = some 2 }

job_made : job_info program (λ d. 24) (some 2) callee two_args ≡ some stored
unfolding job_info function_checker
job_made = refl

job_info-calls_example :
    Accepts program (pointer (function int_type two_params)) two_params
    × (d : Delegate ℕ) × (stored ≡ record { callback = some d; counter = some 2 })
    × (24 ≤ buffer_size)
    × (call_delegate d ≡ some (calls 40 two_args))
job_info-calls_example = job_info-calls program (λ d. 24) (some 2) callee two_args stored job_made
