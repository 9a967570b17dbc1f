-- ===== src/Mpi.antt =====
-- The blocking MPI calls, mpi_hooks.cc: a request is started, tested, and tested again at each resume.
pub mod Hooks
pub mod Tests
use tythread.Task.{TaskState, runnable, mpi_blocked}
use tythread.Base.{ℕ, zero, suc, ◌+◌, Bool, true, false, Option, none, some, ◌==◌, if◌then◌else◌}

abbrev pub mpi_success : ℕ
mpi_success = 0

-- What `MPI_Test` reports: its return code and `flag`.
pub record TestResult : Type 0 where
  pub code : ℕ
  pub flag : Bool

-- The outcome of a hook: the code returned, the task's state, how often it yielded, and whether the
-- caller's `status` was handed to the test that found the request complete.
pub record Outcome : Type 0 where
  pub code : ℕ
  pub state : TaskState
  pub yields : ℕ
  pub status_filled : Bool

-- The loop of a hook behind its first yield: `test n` is what the n-th `MPI_Test` reports. The value
-- is `none` when the fuel runs out.
pub poll : ℕ → Bool → (ℕ → TestResult) → ℕ → TaskState → Option Outcome
poll zero with_status test n state = none
poll (suc fuel) with_status test n state =
    let r = test n in
    let rest = poll fuel with_status test (suc n) state in
    if r.code == mpi_success
    then (if r.flag
        then some
            (record { code = r.code; state = runnable; yields = n; status_filled = with_status })
        else rest)
    else some (record { code = r.code; state = state; yields = n; status_filled = false })

-- The body that both hooks share, from the code that starting the request returns. `with_status` says
-- whether the loop tests with the caller's `status`; the first test does not.
abbrev hook : Bool → ℕ → ℕ → (ℕ → TestResult) → TaskState → Option Outcome
hook with_status fuel start test state =
    let r = test 0 in
    let rest = poll fuel with_status test 1 mpi_blocked in
    if start == mpi_success
    then (if r.code == mpi_success
        then (if r.flag
            then some (record { code = r.code; state = state; yields = 0; status_filled = false })
            else rest)
        else some (record { code = r.code; state = state; yields = 0; status_filled = false }))
    else some (record { code = start; state = state; yields = 0; status_filled = false })

-- `MPI_Send_Hook`: it has no `status`.
unfoldable pub send_hook : ℕ → ℕ → (ℕ → TestResult) → TaskState → Option Outcome
unfolding poll
send_hook fuel start test state = hook false fuel start test state

-- `MPI_Recv_Hook`.
unfoldable pub recv_hook : ℕ → ℕ → (ℕ → TestResult) → TaskState → Option Outcome
unfolding poll
recv_hook fuel start test state = hook true fuel start test state
