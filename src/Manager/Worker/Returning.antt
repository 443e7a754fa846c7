-- ===== src/Manager/Worker/Returning.antt =====
-- `WaitForSingle` (ManagerJobs.cpp) on one thread: the worker that takes the thread executes the job
-- and gives the thread back (ManagerCallbacks.cpp).
use nomad_tasks.Mpmc.{Mpmc}
use nomad_tasks.Manager.{Manager}
