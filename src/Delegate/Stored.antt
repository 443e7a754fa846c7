-- ===== src/Delegate/Stored.antt =====
-- From the constructors of `JobInfo` (Job.h) to the call that the job makes.
use nomad_tasks.Prelude.{
  ◌>>=◌, ℕ, ◌≤◌, ◌≡◌, refl, false, Option, some, none, List, leb, arith, Bool-cases, inl, inr,
}
use nomad_tasks.Callable.{CppType, member, Classes, Check, passed, function_checker}
use nomad_tasks.Callable.Checked.{Accepts, function_checker-Accepts}
use nomad_tasks.Manager.{Job}
use nomad_tasks.Delegate.{
  Value, Callee, object, function_pointer, object_pointer, member_function, Delegate,
  delegate_callable, delegate_member, Call, calls, calls_on, call_delegate, checked_callable,
  checked_args, member_delegate, buffer_size, delegate_of, store_job_info, if_passed, job_info,
}
use nomad_tasks.Delegate.Apply.{apply_lem}

-- The call that the given callee and arguments stand for.
abbrev pub intended : {V : Type 0} → Callee V → List (Value V) → Call V
intended (object t v) args = calls v args
intended (function_pointer r ps v) args = calls v args
intended (object_pointer t v) args = calls_on none v args
intended (member_function t r ps f inst) args = calls_on (some f) inst args

module _ {V : Type 0} (env : Classes) (size_of : Delegate V → ℕ) where
  delegate_callable-calls :
      (f : V) (args : List (Value V))
      → call_delegate (delegate_callable f args) ≡ some (calls f args)
  unfolding call_delegate
  delegate_callable-calls f args = rw (apply_lem args) refl

  delegate_member-calls :
      (f : Option V) (inst : V) (args : List (Value V))
      → call_delegate (delegate_member f inst args) ≡ some (calls_on f inst args)
  unfolding call_delegate
  delegate_member-calls f inst args = rw (apply_lem args) refl

  member_delegate-calls :
      (o : Option CppType) (inst : V) (args : List (Value V)) (d : Delegate V)
      → member_delegate o inst args ≡ some d
      → call_delegate d ≡ some (calls_on none inst args)
  member_delegate-calls (some (member false t r ps)) inst args d e =
      let same : delegate_member none inst args ≡ d = ground arith in
      rw (← same) (delegate_member-calls none inst args)
  member_delegate-calls o inst args d e = absurd (ground arith)

  delegate_of-calls :
      (c : Callee V) (args : List (Value V)) (d : Delegate V)
      → delegate_of env size_of c args ≡ some d
      → call_delegate d ≡ some (intended c args)
  unfolding delegate_of
  delegate_of-calls (object t v) args d e =
      let same : delegate_callable v args ≡ d = ground arith in
      rw (← same) (delegate_callable-calls v args)
  delegate_of-calls (function_pointer r ps v) args d e =
      let same : delegate_callable v args ≡ d = ground arith in
      rw (← same) (delegate_callable-calls v args)
  delegate_of-calls (object_pointer t v) args d e =
      member_delegate-calls (env.call_operator t) v args d e
  delegate_of-calls (member_function t r ps f inst) args d e =
      let same : delegate_member (some f) inst args ≡ d = ground arith in
      rw (← same) (delegate_member-calls (some f) inst args)

  -- What the compiler lets pass, it passed for a callee that takes arguments of exactly these types,
  -- all trivial; the job has the given counter, and a delegate that fits the buffer, whose call is the
  -- given callee's with the given arguments.
  pub job_info-calls :
      (counter : Option ℕ) (c : Callee V) (args : List (Value V)) (j : Job (Delegate V))
      → job_info env size_of counter c args ≡ some j
      → Accepts env (checked_callable c) (checked_args c args)
        × (d : Delegate V) × (j ≡ record { callback = some d; counter = counter })
        × (size_of d ≤ buffer_size)
        × (call_delegate d ≡ some (intended c args))
  unfolding job_info
  job_info-calls counter c args j e =
      at_check (function_checker env (checked_callable c) (checked_args c args)) refl
        (delegate_of env size_of c args) refl e
    where
      at_check :
          (x : Check)
          → function_checker env (checked_callable c) (checked_args c args) ≡ x
          → (o : Option (Delegate V)) → delegate_of env size_of c args ≡ o
          → if_passed env size_of x (o >>= store_job_info env size_of counter) ≡ some j
          → Accepts env (checked_callable c) (checked_args c args)
            × (d : Delegate V) × (j ≡ record { callback = some d; counter = counter })
            × (size_of d ≤ buffer_size)
            × (call_delegate d ≡ some (intended c args))
      at_check passed a (some d) b e = elim (Bool-cases (leb (size_of d) buffer_size)) [
        | inl fits ↦
            let made = rw fits at e in
            (
              function_checker-Accepts env (checked_callable c) (checked_args c args) a,
              d,
              ground arith,
              ground arith,
              delegate_of-calls c args d b,
            )
        | inr too_big ↦ absurd (ground arith)
      ]
      at_check passed a none b e = absurd (ground arith)
      at_check x a o b e = absurd (ground arith)
