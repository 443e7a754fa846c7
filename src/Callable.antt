-- ===== src/Callable.antt =====
-- code/fiber/include/fiber/detail/function_traits.h, function_checks.h and `is_callable` of detail.h:
-- what the compiler works out from the types of a call and of its arguments, as functions on types.
pub mod Equal
pub mod Checked
use nomad_tasks.Prelude.{
  ◌>>=◌, ℕ, zero, suc, ◌+◌, ◌-◌, Bool, true, false, ◌&&◌, Option, some, none, ◌==◌, if◌then◌else◌,
}

-- C++ types as far as the checks tell them apart. `class_type` is a class, by number, or any other
-- type that is no pointer and no function; `member` is `Ret (T::*)(Args...)`, const or not.
mutual
  pub data CppType : Type 0 where
    class_type : ℕ → CppType
    pointer : CppType → CppType
    function : (ret : CppType) → CppTypes → CppType
    member : (is_const : Bool) (of : ℕ) (ret : CppType) → CppTypes → CppType

  pub data CppTypes : Type 0 where
    nil : CppTypes
    cons : CppType → CppTypes → CppTypes

-- What a program's classes are: the type of `&T::operator()`, if there is just one, and
-- `std::is_trivial`.
pub record Classes : Type 0 where
  pub call_operator : ℕ → Option CppType
  pub trivial_class : ℕ → Bool

mutual
  pub same_type : CppType → CppType → Bool
  same_type (class_type a) (class_type b) = a == b
  same_type (pointer a) (pointer b) = same_type a b
  same_type (function r a) (function s b) = same_type r s && same_types a b
  same_type (member true t r a) (member true u s b) = (t == u) && (same_type r s && same_types a b)
  same_type (member false t r a) (member false u s b) =
      (t == u) && (same_type r s && same_types a b)
  same_type _ _ = false

  pub same_types : CppTypes → CppTypes → Bool
  same_types nil nil = true
  same_types (cons a as_) (cons b bs) = same_type a b && same_types as_ bs
  same_types _ _ = false

-- `sizeof...`
abbrev pub count : CppTypes → ℕ
count nil = 0
count (cons t ts) = suc (count ts)

-- `function_traits`: `args`, `return_type`, `num_args`.
pub record Traits : Type 0 where
  pub args : CppTypes
  pub return_type : CppType
  pub num_args : ℕ

-- `remove_this_arg`
abbrev pub remove_this_arg : CppTypes → Option CppTypes
remove_this_arg nil = none
remove_this_arg (cons t ts) = some ts

abbrev pub function_type_traits : CppType → CppTypes → Traits
function_type_traits ret args = record { args = args; return_type = ret; num_args = count args }

-- The first check that fails; `no_traits` and `no_checker` are templates that do not fit.
pub data Check : Type 0 where
  passed : Check
  not_callable : Check
  no_traits : Check
  count_mismatch : Check
  type_mismatch : (index : ℕ) → Check
  not_trivial : (index : ℕ) → Check
  no_checker : Check

module _ (env : Classes) where
  -- `function_traits` of what `&F::operator()` is; `none` is an error of the compiler's.
  unfoldable pub member_traits : CppType → Option Traits
  member_traits (member is_const t ret args) =
      some (function_type_traits ret (cons (pointer (class_type t)) args))
  member_traits _ = none

  abbrev pub without_this : Traits → Option Traits
  without_this t = do
    args ← remove_this_arg t.args
    some (record { args = args; return_type = t.return_type; num_args = t.num_args - 1 })

  unfoldable pub function_traits : CppType → Option Traits
  unfolding member_traits
  function_traits (pointer (function ret args)) = some (function_type_traits ret args)
  function_traits (function ret args) = some (function_type_traits ret args)
  function_traits (member is_const t ret args) = member_traits (member is_const t ret args)
  function_traits (class_type t) = do
    call ← env.call_operator t
    func_traits ← member_traits call
    without_this func_traits
  function_traits (pointer t) = none

  -- `is_callable`
  abbrev pub has : Option CppType → Bool
  has none = false
  has (some t) = true

  pub is_callable : CppType → Bool
  is_callable (pointer (function ret args)) = true
  is_callable (pointer t) = is_callable t
  is_callable (member is_const t ret args) = true
  is_callable (class_type t) = has (env.call_operator t)
  is_callable (function ret args) = false

  -- `std::is_trivial`
  pub is_trivial : CppType → Bool
  is_trivial (class_type t) = env.trivial_class t
  is_trivial (function ret args) = false
  is_trivial _ = true

  -- `argument_checker`
  pub argument_checker : ℕ → CppTypes → CppTypes → Check
  unfolding is_trivial same_type
  argument_checker index nil nil = passed
  argument_checker index (cons expected es) (cons actual as_) =
      let rest = argument_checker (index + 1) es as_ in
      if same_type expected actual
      then (if is_trivial actual then rest else not_trivial index)
      else type_mismatch index
  argument_checker index _ _ = no_checker

  -- `function_checker::check_args`, with `argument_count_checker`
  abbrev pub check_args : Option Traits → CppTypes → Check
  check_args none actual = no_traits
  check_args (some t) actual =
      if t.num_args == count actual then argument_checker 0 t.args actual else count_mismatch

  -- `function_checker::check`
  unfoldable pub function_checker : CppType → CppTypes → Check
  unfolding function_traits is_callable argument_checker
  function_checker callable actual =
      if is_callable callable then check_args (function_traits callable) actual else not_callable
