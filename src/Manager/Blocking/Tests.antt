-- ===== src/Manager/Blocking/Tests.antt =====
-- The schedule that loses the notification, followed by more steps of all.
use nomad_tasks.Prelude.{◌≡◌, true, false, [], ◌∷◌}
use nomad_tasks.Manager.Blocking.{waits, of_caller, of_proxy, of_counter, run, start}
use nomad_tasks.Manager.Blocking.Lost.{too_early, lost_wakeup}

lost_wakeup_example :
    (run
      (of_proxy ∷ of_caller true false ∷ of_counter false ∷ of_proxy ∷ [])
      (run too_early start)).caller
    ≡ waits
lost_wakeup_example =
    lost_wakeup (of_proxy ∷ of_caller true false ∷ of_counter false ∷ of_proxy ∷ []) tt
