-- ===== src/Lib.antt =====
-- NomadTasks, a job system on fibers: code/fiber, and the smaller code/threadjob, whose `JobSystem`
-- runs its list of jobs one after the other on the thread that calls it.
--
-- A `Manager` (code/fiber/Manager.cpp, ManagerJobs.cpp) owns worker threads, a pool of fibers and
-- four bounded job queues, one for each priority. A worker fiber takes a job out of a queue and
-- executes it; a job that has to wait for others gives its fiber to a `Counter` (Counter.cpp) and
-- switches to an idle one. The job's end decrements the counter, and whichever thread takes the
-- counter to the value waited for puts the fiber into its list of ready fibers.
--
-- The files:
--   Mpmc: the bounded queue (code/fiber/include/fiber/detail/mpmc_queue.h). Its loops are cut into
--     accesses to shared memory (`enqueue_dif`, `claim_enqueue`, `write_data`, `publish`, and so on);
--     `enqueue` and `dequeue` put them together for a thread that no other interrupts, and
--     Mpmc/Concurrent.antt lets any number of threads take turns, one access at a time, as a schedule
--     says. Mpmc/Fifo specifies the queue as a bounded list (`push`, `pop`).
--   Counter: the counter that fibers wait on (code/fiber/Counter.cpp, include/fiber/Counter.h), in the
--     same two ways: Counter.antt with Counter/Check.antt and Counter/Add.antt for calls that are not
--     interrupted, Counter/Interleaved.antt for schedules. Counter/Interleaved/Single is about one
--     wait on a new counter among any number of increments and decrements, Counter/Interleaved/Reuse
--     has two schedules on which a slot is used twice.
--   Manager: the manager (code/fiber/Manager.cpp, ManagerJobs.cpp, Job.cpp, include/fiber/Manager.h,
--     TLS.h, Job.h), each operation for a thread that no other interrupts: Manager/Fibers.antt for the
--     pool of fibers (`FindFreeFiber`, `CleanupPreviousFiber`), Manager/Jobs.antt for `ScheduleJob`,
--     `GetNextJob`, `WaitForCounter` and `JobInfo::Execute`, over the queues of Mpmc and the counters of
--     Counter, and Manager/Run.antt for `Run`, with what the threads that it spawns do meanwhile as a
--     parameter. An operation that switches to another fiber ends
--     there, with the fiber's number; what follows the switch is an operation of its own. The flags
--     that `WaitForCounter` allocates are numbered.
--     Manager/Interleaved.antt lets any number of threads take, leave and resume fibers as a schedule
--     says; `GetNextJob` returns early on a thread for input and output, and where it finds a job of high
--     priority. Its children Places, Entries and Frame say where each fiber is and what that comes to;
--     Taking, Entering, Leaving and Waiting are about one step each, Ownership about all schedules,
--     and Stale is a schedule that ends badly.
--     Manager/Worker.antt has the callbacks of threads and fibers (code/fiber/ManagerCallbacks.cpp), with
--     the worker's loop up to a number of rounds; Worker/AtWork and Draining are about a worker on
--     queues at rest, Worker/Stopping about the end of the main fiber, Worker/Scheduled, Begun, GivenBack
--     and Returning about `WaitForSingle` and the worker that takes its thread meanwhile.
--     Manager/Blocking.antt is the blocking `WaitForCounter` with the job that it schedules, interleaved.
--     Manager/Threads.antt has the manager's threads (Manager.cpp, ManagerThreads.cpp): `SpawnThread`,
--     `SetupThread`, the search for the calling thread, and `Shutdown` with its joins.
--     Manager/Switching.antt adds to the schedules of Manager/Interleaved.antt the fiber objects that
--     each switch goes through. Manager/Jobs/Single.antt is `WaitForSingle`.
--   Queue and JobList: `Queue` and `List` (Queue.cpp, List.cpp, include/fiber/Queue.h, List.h), over the
--     operations of Manager. `Queue::Execute` runs on fuel: one step more than there are jobs is
--     enough where none is added.
--   Fiber: the fiber objects (Fiber.cpp, include/fiber/Fiber.h) and the guards of their switches.
--   JobBuffer: what the copies of a `JobInfo` (Job.h) do to the delegate in its buffer, between
--     `ScheduleJob`, the cells of a queue and `JobInfo::Execute`.
--   Thread: `Thread::Spawn` (code/fiber/Thread.cpp) interleaved with `LaunchThread` and `WaitForReady`
--     of the thread that it starts. What the operating system answers is a parameter.
--   Callable: the checks of a call that the compiler makes (code/fiber/include/fiber/detail:
--     function_traits.h, function_checks.h, detail.h), as functions on a type of C++ types.
--   Delegate: the constructors of `JobInfo` (Job.h), which make those checks, and the delegates that
--     they store (detail/delegate.h, `apply` of detail/detail.h).
--   Threadjob: the jobs and delayed jobs of code/threadjob (include/threadjob/Job.h, DelayedJob.h,
--     IJob.h), Threadjob/System.antt the list of jobs and `Run` (include/threadjob/Manager.h).
--     Callbacks and the clock are parameters; a callback may add jobs. Objects are referred to by
--     number, and the use of one that has been deleted is a fault. Threadjob/Traits.antt is what the
--     compiler works out of a callback's type (JobFunctionTraits.h).
--   Prelude: tests, lists, families with an update, bits, and signed differences of machine words.
--
-- Integers are natural numbers with the wrap written out: positions and sequences modulo 2 ^ 64, the
-- counter's value modulo 2 ^ 32. A signed difference of two words is exact below 2 ^ 63; a schedule of
-- fewer than 2 ^ 63 - 2 ^ k steps stays below, which is the bound of the theorems on a queue of 2 ^ k
-- cells. The loops of `enqueue` and `dequeue` run on fuel: one round is enough for a thread that no
-- other interrupts, and the schedules need none. A worker's loop, which need not end, is taken for a
-- given number of rounds. The scans of the slots are structural recursion.
--
-- Atomic accesses take effect in the order of the steps of a schedule; what weaker orderings allow
-- besides is not modelled. A weak compare-exchange may fail without reason: the schedule says when, and
-- the field `weak_fails` of a manager says it for `FindFreeFiber`. `cv.wait` may return with no
-- notification: again the schedule says when.
-- Three plain stores to a slot that its owner alone may touch are one step, and so are the two plain
-- loads before an entry into a ready list.
--
-- Not modelled: `SetAffinity` and `SleepFor` of Thread.cpp, which only call the operating system; the
-- profiler in code/vendor/optick; the destructors, but for `JobInfo` and `Fiber`; the copies of jobs
-- that a `std::vector` makes; and calls of a `JobSystem`, of a `Queue` or of `SetupThread` by several
-- threads at once. The handles of the operating system are numbers, and a switch of fibers ends an
-- operation with the handle that is given to it.
pub mod Prelude
pub mod Queue
pub mod JobList
pub mod Mpmc
pub mod Counter
pub mod Manager
pub mod Threadjob
pub mod Callable
pub mod Delegate
pub mod Thread
pub mod Fiber
pub mod JobBuffer
