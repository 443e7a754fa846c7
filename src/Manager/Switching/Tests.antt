-- ===== src/Manager/Switching/Tests.antt =====
-- The schedule of Manager/Interleaved/Tests.antt, after which thread 2 has fiber 0, which thread 1 left.
use nomad_tasks.Prelude.{ℕ, ◌+◌, ◌*◌, ◌≡◌, ◌≢◌, refl, some}
use nomad_tasks.Fiber.{FiberName, of_thread, of_pool, Fibers, new_fiber, switches, switch_back}
use nomad_tasks.Manager.Interleaved as Interleaved
use nomad_tasks.Manager.Interleaved.{outside, current, start}
use nomad_tasks.Manager.Interleaved.Tests.{manager, manager-New, resumed, resumed-Homebound}
use nomad_tasks.Manager.Switching.{run}
use nomad_tasks.Manager.Switching.Returns.{switch_back-own_thread}

abbrev handle : FiberName → ℕ
handle (of_thread t) = 2 * t
handle (of_pool g) = 2 * g + 1

abbrev new_fibers : Fibers ℕ
new_fibers g = new_fiber (some (handle g))

switch_back-own_thread_example :
    (fs' : Fibers ℕ) × (run 9 resumed (record { system = start manager; fibers = new_fibers })
      ≡ some (record { system = Interleaved.run resumed (start manager); fibers = fs' }))
    × ((t : ℕ)
        → (Interleaved.run resumed (start manager)).pc t ≢ outside
        → switch_back (of_pool (current (Interleaved.run resumed (start manager)) t)) fs'
          ≡ switches (handle (of_thread t)) fs')
switch_back-own_thread_example =
    switch_back-own_thread handle 9 manager resumed new_fibers manager-New resumed-Homebound
      (λ g. refl)
