-- ===== src/Manager/Created.antt =====
-- The manager that the constructor makes (Manager.cpp), before `Run`.
use nomad_tasks.Prelude.{ℕ, ◌+◌, ◌^◌, ◌≤◌, ◌<◌, ◌≡◌, refl, some, [], arith}
use nomad_tasks.Mpmc.{Mpmc, create, fresh}
use nomad_tasks.Mpmc.Create.{create_total, create-Fresh}
use nomad_tasks.Mpmc.Fifo.{Valid, contents}
use nomad_tasks.Mpmc.Fifo.Created.{create_refines}
use nomad_tasks.Counter.{Counter}
use nomad_tasks.Manager.{Job, Manager, ManagerOptions, blank_job, with_queues, new_manager}
use nomad_tasks.Manager.Jobs.Choosing.Order.{Sizes, Holds, Small}

-- A size that is a power of two, and below the wrap of the signed differences.
pub record Sized (size k : ℕ) : Type 0 where
  pub several : 1 ≤ k
  pub power : size ≡ 2 ^ k
  pub bound : 2 ^ k < 2 ^ 63

module _ {F : Type 0} where
  abbrev Empty : ℕ → Mpmc (Job F) → Type 0
  Empty k q = Valid k q × (contents k q ≡ []) × (q.enqueue_pos + 2 ^ k < 2 ^ 63)

  created :
      (size k : ℕ)
      → Sized size k
      → (q : Mpmc (Job F)) × (create blank_job size ≡ some q) × Empty k q
  created size k s =
      let made = create_total {A = Job F} blank_job k s.several in
      let (v, c) = create_refines blank_job k (fresh blank_job (2 ^ k)) s.several made in
      let new = create-Fresh blank_job k (fresh blank_job (2 ^ k)) made in
      (fresh blank_job (2 ^ k), rw s.power made, (v, c, omega (arith, new.enqueue_zero, s.bound)))

  -- With queue sizes that are powers of two, from 2 to 2 ^ 62, the constructor makes a manager whose
  -- four queues are at rest and empty.
  pub new_manager-Holds :
      (o : ManagerOptions) (counters : ℕ → Counter) (z : Sizes)
      → Sized o.high_priority_queue_size z.high
      → Sized o.normal_priority_queue_size z.normal
      → Sized o.low_priority_queue_size z.low
      → Sized o.io_queue_size z.io
      → (m : Manager F) × (new_manager o counters ≡ some m) × Holds z m [] [] [] [] × Small z m
  unfolding new_manager
  new_manager-Holds o counters z sh sn sl si =
      let (qh, eh, (vh, ch, bh)) = created o.high_priority_queue_size z.high sh in
      let (qn, en, (vn, cn, bn)) = created o.normal_priority_queue_size z.normal sn in
      let (ql, el, (vl, cl, bl)) = created o.low_priority_queue_size z.low sl in
      let (qi, ei, (vi, ci, bi)) = created o.io_queue_size z.io si in
      (
        with_queues o counters qh qn ql qi,
        rw (eh, en, el, ei) refl,
        record {
          high_valid = vh;
          normal_valid = vn;
          low_valid = vl;
          io_valid = vi;
          high_jobs = ch;
          normal_jobs = cn;
          low_jobs = cl;
          io_jobs = ci;
        },
        record { high_small = bh; normal_small = bn; low_small = bl; io_small = bi },
      )
