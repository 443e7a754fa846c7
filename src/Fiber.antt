-- ===== src/Fiber.antt =====
-- code/fiber/Fiber.cpp: the objects that stand for fibers of the operating system, with the guards of
-- their switches. What the operating system answers (`CreateFiber`, `ConvertThreadToFiber`) is a
-- parameter; a switch ends an operation, with the handle that is given to `SwitchToFiber`.
use nomad_tasks.Prelude.{
  ℕ, Bool, true, false, ◌&&◌, Option, some, none, List, [], ◌∷◌, if◌then◌else◌, is_some, ◌==◌,
}

-- The fiber objects: that of a thread's record, and those of the manager's pool.
pub data FiberName : Type 0 where
  of_thread : ℕ → FiberName
  of_pool : ℕ → FiberName

-- A fiber object, with callbacks of type `C`.
pub record Fiber (C : Type 0) : Type 0 where
  pub handle : Option ℕ  -- `_fiber`
  pub thread_fiber : Bool
  pub return_fiber : Option FiberName
  pub callback : Option C
  pub user_data : Option ℕ

-- How an operation ends.
pub data Ended (A : Type 0) : Type 0 where
  returns : A → Ended A
  switches : (handle : ℕ) → A → Ended A
  throws_invalid : Ended A  -- EX_INVALID_FIBER
  throws_unable : Ended A  -- EX_UNABLE_TO_SWITCH_BACK_FROM_FIBER

-- The fiber objects of a program.
abbrev pub Fibers : Type 0 → Type 0
Fibers C = FiberName → Fiber C

-- The handles that the destructor, and `FromCurrentThread`, give to `DeleteFiber`.
pub deleted : Option ℕ → Bool → List ℕ
deleted (some h) false = h ∷ []
deleted (some h) true = []
deleted none b = []

module _ {C : Type 0} where
  -- The constructor, where `CreateFiber` gives `created`.
  abbrev pub new_fiber : Option ℕ → Fiber C
  new_fiber created = record {
    handle = created;
    thread_fiber = false;
    return_fiber = none;
    callback = none;
    user_data = none;
  }

  -- `FromCurrentThread`, where `ConvertThreadToFiber` gives `converted`.
  pub from_current_thread : Option ℕ → Fiber C → List ℕ × Fiber C
  unfolding deleted
  from_current_thread converted f =
      (deleted f.handle f.thread_fiber, record f { handle = converted; thread_fiber = true })

  -- `SetCallback`
  abbrev pub set_callback : Option C → Fiber C → Fiber C
  set_callback cb f = record f { callback = cb }

  -- What `LaunchFiber` calls; `none` is its exception.
  abbrev pub launch_fiber : Fiber C → Option C
  launch_fiber f = f.callback

  -- `IsValid`
  abbrev pub is_valid : Fiber C → Bool
  is_valid f = is_some f.handle && is_some f.callback

  abbrev pub set_fiber : FiberName → Fiber C → Fibers C → Fibers C
  set_fiber (of_thread i) f fs (of_thread j) = if i == j then f else fs (of_thread j)
  set_fiber (of_pool i) f fs (of_pool j) = if i == j then f else fs (of_pool j)
  set_fiber _ f fs g = fs g

  -- `SwitchTo` of the object `this`, once the handle of `target` is known.
  abbrev pub switch_by : FiberName → FiberName → Option ℕ → Option ℕ → Fibers C → Ended (Fibers C)
  switch_by this target user_data none fs = throws_invalid
  switch_by this target user_data (some h) fs =
      switches h (
        set_fiber target (record (fs target) { user_data = user_data; return_fiber = some this })
          fs)

  -- `SwitchTo`; no target is `nullptr`.
  unfoldable pub switch_to : FiberName → Option FiberName → Option ℕ → Fibers C → Ended (Fibers C)
  switch_to this none user_data fs = throws_invalid
  switch_to this (some target) user_data fs = switch_by this target user_data (fs target).handle fs

  abbrev pub back_by : Option ℕ → Fibers C → Ended (Fibers C)
  back_by none fs = throws_unable
  back_by (some h) fs = switches h fs

  abbrev pub back_to : Option FiberName → Fibers C → Ended (Fibers C)
  back_to none fs = throws_unable
  back_to (some g) fs = back_by (fs g).handle fs

  -- `SwitchBack` of the object `this`.
  unfoldable pub switch_back : FiberName → Fibers C → Ended (Fibers C)
  switch_back this fs = back_to (fs this).return_fiber fs
