-- ===== src/Lib.antt =====
-- Verification library of TYThread, a library of light tasks on several threads.
--
-- A task is spawned into the run queue of a thread (Skiplist.hh), and each thread takes tasks from
-- its own queue or steals the first half of another's (GlobalMediator.cc, PerThreadMgr.cc). A task that
-- waits for a group (TaskGroup.cc) or for MPI (mpi_hooks.cc) leaves its coroutine, and its thread puts
-- it where its state says. Tasks are counted objects (util.hh), and their memory can come from a pool
-- of arenas (ObjectPool.hh).
--
-- Base: names of the libraries, tests on numbers, addresses, maps as functions.
-- Skiplist: `Skiplist`. A task or a skip node is an address, `Mem` says what lies there, and
--   `Skiplist` has the fields of the class. `enqueue`, `enqueue_move` (the form for moved pointers),
--   `dequeue` (`dequeue_`), `replace`, `size`; `grow` is the loop of `_update_after_enque` and
--   `shrink` that of `dequeue_`. Skiplist/Half: `dequeue_half`, its search (`find_split`) and its two
--   ways to split; Half/Slow: `dequeue_half_`. Skiplist/Destroy: the destructor. A queue is in a good
--   state (`IsValid`) when the raw list and the four layers are rows of nodes, each node above stands
--   for a full group of 64 below, and the candidates begin the last group of a row. Row and Link say
--   this of one row and of two; Stack of all; Grow, Grown, Linked and Enqueue are about `enqueue`
--   (with Pushed and Updated), Shrink, Dequeue and Popped about `dequeue_`, Divide and the modules
--   below Half about the split.
-- RefPtr: `DerivedRefPtr`. Pointers are numbered; the store has their targets and the counters.
--   RefPtr/Make: `makeRefPtr`.
-- Pool: `ObjectLayer`, `PerLayerCache` and `ObjectPool`. An arena is an address, a capacity and the
--   size of an entry; the free list is in the entries. Arena is about one layer, Fresh about a new one,
--   Cached about a cache, Sizes, Growth and Reclaim about the layers of a pool. Pool/Mediator has the
--   pools of all threads, the tags of their entries and what each caches of the others; Bits is about
--   the words of the tags. Its modules Setup and New are about the constructors, Reuse about an entry
--   that its thread releases, and Daemon about the thread that cleans up the caches.
-- TaskPool: `TaskPool` and the operators of `Task` in Task.cc, from `Config` to the memory of a task.
-- Spinlock: the flag, and any number of threads that lock and unlock it. Config: the constructor of the
--   configuration. Sum: sums over families.
-- Group: `TaskGroup`, each critical section a function, and the interleavings of a waiting task with
--   the members of its group as a step relation; Group/Latch: `CountDownLatch` of co_user.hh.
-- Task: the states of a task, their names (Task/Names) and the array of its groups (Task/Groups).
-- Scheduler: Task.cc, PerThreadMgr.cc and `run_once` of GlobalMediator.cc over all of these. The
--   callback of a task is a parameter: it takes the world to the task's next yield or to its end.
--   Scheduler/Bundle: `TaskBundle` and the task that waits for one; Join is about the group, Wake
--   about the queues. A locked section is one step; what other threads do between the sections of
--   `run_once`, and between those of the collecting thread of Pool, is a parameter. The queues of all
--   threads live in one memory: Skiplist/Frame says what an operation on one queue leaves alone;
--   Scheduler/Shared and Theft lift this to the world, Idle is about a thread that finds nothing to
--   do, Polling about the tasks that wait for MPI, DebugRun about the loop for debugging, on fuel, and
--   Scheduler/Interleave has the steps that threads take, in any order, with what they hold; its
--   modules Conserve, Rounds, Parked and Own are about these steps and the code that is made of them.
-- Mediator: the loop `run` of GlobalMediator.cc, for all threads at once: a step relation whose
--   steps are those of Scheduler/Interleave and what a thread does when it finds nothing, to sleep, to
--   end, or, for thread 0, to wait for the others; a thread is inside a task or in its loop.
--   Mediator/Sleep is about `sleep_count`, Closing and Others about the end. The increment of
--   `sleep_count` and the wait behind it are one step.
-- MergeSort: omp_merge_sort.c, the benchmark that sorts. `serial` and `parallel` are the two merge sorts,
--   `merge_both`, `merge_left` and `merge_right` the loops of `merge`, and Driver has `main`. The two
--   sections of a fork run one after the other, in an order that is a parameter. Range, Insertion,
--   Writes, Merging, Halves, Serial, Unique and Parallel are about the order and the entries of a range.
-- Mpi: the hooks of mpi_hooks.cc. What `MPI_Test` reports is a parameter, a result for each test.
--
-- Numbers: a reference count is taken modulo 2 ^ 32, `blocking_count` and `current_size` too, and `used`
-- of an arena modulo 2 ^ 64. The offsets of a queue, `int` in the source, are not bounded: they count
-- the tasks ever enqueued, and the model is that of the source below 2 ^ 31. `SkipGap` and `NLayers`
-- have their default values. The loops over layers are bounded by the number of layers; the loop of an
-- MPI hook has fuel, and its theorem says how much is enough. The merge sort has fuel too: a sort gets
-- one more than the size, or than the number of threads, which each call halves, and a loop of `merge`
-- one more than the size; the theorems hold with this fuel. The loop of the destructor of a queue has
-- as many rounds as the queue has tasks.
--
-- Left out in Scheduler: the counts that copies of `TaskPtr` in `currentTask__`, `blockedTask`,
-- `mpi_blocked_queue` and the locals of run_runnable and informDone take and give back, and the
-- deletion of a task whose count becomes 0; the counters of a world change in `go` and in the
-- operations of the queues only. An address is never given to a second task, and never to a second
-- skip node. In Pool a layer that is missing is left alone, where the source would dereference a
-- null pointer. `add` of a latch makes a new one, and the array of groups of its fake task is left
-- out.
--
-- Not modelled: the condition variable but for who sleeps, the coroutines, the bound on the layers of a
-- pool, printing and assertions, and the programs that test the library or measure it, but for the merge
-- sort.
pub mod Base
pub mod Config
pub mod Group
pub mod Mediator
pub mod MergeSort
pub mod Mpi
pub mod Pool
pub mod RefPtr
pub mod Scheduler
pub mod Skiplist
pub mod Spinlock
pub mod Sum
pub mod Task
pub mod TaskPool
