-- ===== src/Task.antt =====
-- The states of a task, Task.hh.
pub mod Groups
pub mod Names
pub mod Tests

-- In the order of the enumeration: spawned; in a run queue; in a queue of tasks blocked by MPI; in a
-- group that it waits for, in no queue; finished.
pub data TaskState : Type 0 where
  initial runnable mpi_blocked group_wait terminated : TaskState
