-- ===== src/Manager/Jobs/Choosing.antt =====
-- `GetNextJob` (ManagerJobs.cpp): the order in which queues and ready fibers are served.
pub mod Order
pub mod Resuming
use nomad_tasks.Prelude.{
  ◌>>=◌, ℕ, ◌+◌, ◌^◌, ◌<◌, ◌≡◌, refl, sym, ap, ◌∙◌, Bool, true, false, Option, some, none, List, [],
  ◌∷◌, ◌++◌, if◌then◌else◌, Bool-cases, inl, inr, arith, update,
}
use nomad_tasks.Mpmc.{Mpmc, dequeue}
use nomad_tasks.Mpmc.Fifo.{pop, Valid, contents}
use nomad_tasks.Mpmc.Fifo.Refine.{dequeue_refines}
use nomad_tasks.Counter.{Ready}
use nomad_tasks.Manager.{Job, Tls, Manager, set_tls}
use nomad_tasks.Manager.Jobs.{
  Next, found, nothing, resumes, take_ready, behind, next_of, or_low, normal_or_low, or_ready,
  after_high, next_worker, get_next_job, resuming,
}

-- No fiber of the list has been left yet.
abbrev pub AllBusy : (ℕ → Bool) → List Ready → Type 0
AllBusy stored [] = Unit {0}
AllBusy stored ((f, flag) ∷ r) = (stored flag ≡ false) × AllBusy stored r

-- `rest` is `l` without the first of its fibers that has been left, `f`.
abbrev FirstLeft : (ℕ → Bool) → List Ready → ℕ → List Ready → Type 0
FirstLeft stored l f rest =
    (before after : List Ready) × (flag : ℕ) × (l ≡ before ++ ((f, flag) ∷ after))
    × (rest ≡ before ++ after)
    × AllBusy stored before
    × (stored flag ≡ true)

-- The search among the ready fibers gives the first that has been left, and takes only its entry out.
take_ready-first :
    (stored : ℕ → Bool) (l : List Ready) (f : ℕ) (rest : List Ready)
    → take_ready stored l ≡ some (f, rest)
    → FirstLeft stored l f rest
unfolding take_ready
take_ready-first stored [] f rest e = absurd (ground arith)
take_ready-first stored ((g, flag) ∷ r) f rest e = elim (Bool-cases (stored flag)) [
  | inl left ↦ let here = rw left at e in ([], r, flag, ground arith, ground arith, tt, left)
  | inr busy ↦ later (take_ready stored r) refl (rw busy at e) busy (take_ready-first stored r)
]
  where
    later :
        (x : Option (ℕ × List Ready))
        → take_ready stored r ≡ x
        → behind (g, flag) x ≡ some (f, rest)
        → stored flag ≡ false
        → ((f' : ℕ) (rest' : List Ready)
            → take_ready stored r ≡ some (f', rest')
            → FirstLeft stored r f' rest')
        → FirstLeft stored ((g, flag) ∷ r) f rest
    later none a b busy again = absurd (ground arith)
    later (some (f', rest')) a b busy again =
        let same : f' ≡ f = ground arith in
        let (before, after, flag', x, y, z, s) =
          again f rest' (a ∙ ap (λ u. some (u, rest')) same) in
        ((g, flag) ∷ before, after, flag', ap (λ u. (g, flag) ∷ u) x, ground arith, (busy, z), s)
