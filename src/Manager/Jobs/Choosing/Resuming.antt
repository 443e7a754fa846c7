-- ===== src/Manager/Jobs/Choosing/Resuming.antt =====
-- `GetNextJob` (ManagerJobs.cpp) where there is no job of high priority, and one ready fiber.
use nomad_tasks.Prelude.{◌>>=◌, ℕ, ◌≡◌, ap, ◌∙◌, true, false, some, none, [], ◌∷◌, if◌then◌else◌}
use nomad_tasks.Mpmc.{Mpmc}
use nomad_tasks.Mpmc.Fifo.{pop}
use nomad_tasks.Manager.{Job, Manager, set_tls}
use nomad_tasks.Manager.Jobs.{
  resumes, resuming, take_ready, or_ready, after_high, next_io, next_worker, get_next_job,
}
use nomad_tasks.Manager.Jobs.Choosing.Order.{Sizes, Holds, Small, high-popped}

module _ {F : Type 0} where
  -- The manager once thread `t` has switched to the only ready fiber.
  abbrev pub resumed_only : (t fiber : ℕ) (q : Mpmc (Job F)) (m : Manager F) → Manager F
  resumed_only t fiber q m =
      set_tls t (resuming fiber [] (m.tls t)) (record m { high_priority_queue = q })

  pub get_next_job-only :
      (z : Sizes) (t fiber flag : ℕ) (m : Manager F)
      → Small z m
      → Holds z m [] [] [] []
      → (m.tls t).is_io ≡ false
      → (m.tls t).ready_fibers ≡ (fiber, flag) ∷ []
      → m.stored flag ≡ true
      → (q : Mpmc (Job F)) × (get_next_job t m ≡ some (resumes fiber, resumed_only t fiber q m))
        × Holds z (record m { high_priority_queue = q }) [] [] [] []
  unfolding get_next_job after_high or_ready take_ready pop
  get_next_job-only z t fiber flag m small v not_io ready left =
      let (q, e, w) = high-popped z m [] [] [] [] small.high_small v in
      let after : Manager F = record m { high_priority_queue = q } in
      (
        q,
        ap (λ b. if b then next_io m else next_worker t m) not_io
            ∙ ap (λ o. o >>= λ r. after_high t r.0 (record m { high_priority_queue = r.1 })) e
            ∙ ap (λ l. or_ready t (take_ready m.stored l) after) ready
            ∙ ap (λ b. or_ready t (if b then some (fiber, []) else none) after) left,
        w,
      )
