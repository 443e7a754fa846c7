-- ===== src/Delegate.antt =====
-- code/fiber/include/fiber/detail/detail.h and delegate.h: index tuples, `apply` and delegates; and
-- the constructors of `JobInfo` (Job.h), which check a call and store it in a job's buffer.
pub mod Apply
pub mod Stored
pub mod Tests
use nomad_tasks.Prelude.{
  ◌>>=◌, ℕ, zero, suc, ◌+◌, ◌*◌, Bool, true, false, Option, some, none, List, [], ◌∷◌, ◌++◌, length,
  get_elem?, if◌then◌else◌, leb,
}
use nomad_tasks.Manager.{Job}
use nomad_tasks.Callable.{
  CppType, CppTypes, class_type, pointer, function, member, nil, cons, Classes, Check, passed,
  function_checker,
}

-- `make_index_tuple`, by `append`
pub make_index_tuple : ℕ → List ℕ
make_index_tuple zero = []
make_index_tuple (suc n) = make_index_tuple n ++ (n ∷ [])

-- `std::get<I>(tuple)...`; `none` is an index out of range, an error of the compiler's.
pub get_all : {A : Type 0} → List A → List ℕ → Option (List A)
get_all tuple [] = some []
get_all tuple (i ∷ is) = do x ← get_elem? tuple i; xs ← get_all tuple is; some (x ∷ xs)

-- `apply` and `apply_impl`: what `func` is called with.
pub apply : {A : Type 0} → List A → Option (List A)
unfolding make_index_tuple get_all
apply args = get_all args (make_index_tuple (length args))

-- A value, with its type. `V` holds what the types do not say.
pub record Value (V : Type 0) : Type 0 where
  pub type_of : CppType
  pub content : V

abbrev pub types_of : {V : Type 0} → List (Value V) → CppTypes
types_of [] = nil
types_of (x ∷ xs) = cons x.type_of (types_of xs)

-- The first argument of a constructor of `JobInfo`, after the counter: an object of a class, a pointer
-- to a function, a pointer to an object of a class, or a member function with its object.
pub data Callee (V : Type 0) : Type 0 where
  object : (of : ℕ) → V → Callee V
  function_pointer : (ret : CppType) (params : CppTypes) → V → Callee V
  object_pointer : (of : ℕ) → V → Callee V
  member_function : (of : ℕ) (ret : CppType) (params : CppTypes) (f inst : V) → Callee V

-- `delegate_callable` and `delegate_member`
pub data Delegate (V : Type 0) : Type 0 where
  delegate_callable : (callable : V) (args : List (Value V)) → Delegate V
  delegate_member : (f : Option V) (inst : V) (args : List (Value V)) → Delegate V

-- A call that is made: of a callable, or of a member function on an object (`none` for `operator()`).
pub data Call (V : Type 0) : Type 0 where
  calls : (callable : V) (args : List (Value V)) → Call V
  calls_on : (f : Option V) (inst : V) (args : List (Value V)) → Call V

module _ {V : Type 0} where
  -- `Call` of a delegate.
  pub call_delegate : Delegate V → Option (Call V)
  unfolding apply
  call_delegate (delegate_callable f args) = do xs ← apply args; some (calls f xs)
  call_delegate (delegate_member f inst args) = do xs ← apply args; some (calls_on f inst xs)

  -- What `function_checker` is given.
  abbrev pub checked_callable : Callee V → CppType
  checked_callable (object t v) = class_type t
  checked_callable (function_pointer r ps v) = pointer (function r ps)
  checked_callable (object_pointer t v) = class_type t
  checked_callable (member_function t r ps f inst) = member false t r ps

  abbrev pub checked_args : Callee V → List (Value V) → CppTypes
  checked_args (member_function t r ps f inst) args = cons (pointer (class_type t)) (types_of args)
  checked_args c args = types_of args

  -- The delegate that is stored; `delegate_member` of an object's `operator()` wants one that is not
  -- const.
  abbrev pub member_delegate : Option CppType → V → List (Value V) → Option (Delegate V)
  member_delegate (some (member false t r ps)) inst args = some (delegate_member none inst args)
  member_delegate _ inst args = none

-- `BufferSize`, for pointers of 8 bytes
abbrev pub buffer_size : ℕ
buffer_size = 8 * 8

module _ {V : Type 0} (env : Classes) (size_of : Delegate V → ℕ) where
  pub delegate_of : Callee V → List (Value V) → Option (Delegate V)
  delegate_of (object t v) args = some (delegate_callable v args)
  delegate_of (function_pointer r ps v) args = some (delegate_callable v args)
  delegate_of (object_pointer t v) args = member_delegate (env.call_operator t) v args
  delegate_of (member_function t r ps f inst) args = some (delegate_member (some f) inst args)

  -- `StoreJobInfo`, with `delegate_size_checker`
  abbrev pub store_job_info : Option ℕ → Delegate V → Option (Job (Delegate V))
  store_job_info counter d =
      if leb (size_of d) buffer_size
      then some (record { callback = some d; counter = counter })
      else none

  abbrev pub if_passed : Check → Option (Job (Delegate V)) → Option (Job (Delegate V))
  if_passed passed j = j
  if_passed _ j = none

  -- The constructors with a call; `none` is an error of the compiler's.
  pub job_info : Option ℕ → Callee V → List (Value V) → Option (Job (Delegate V))
  unfolding delegate_of
  job_info counter c args =
      if_passed (function_checker env (checked_callable c) (checked_args c args))
        (do d ← delegate_of c args; store_job_info counter d)
