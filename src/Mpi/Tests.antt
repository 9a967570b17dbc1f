-- ===== src/Mpi/Tests.antt =====
-- The theorems about the MPI hooks at concrete requests.
use tythread.Base.{ℕ, ◌≡◌, refl, inr, arith, ◌==◌, if◌then◌else◌, true, false, some, ltb}
use tythread.Mpi.{TestResult, mpi_success, send_hook, recv_hook}
use tythread.Mpi.Hooks.{EndsAt, hooks-yield, state_after}
use tythread.Task.{runnable, mpi_blocked}

-- A request that is complete from test k on.
abbrev done_from : ℕ → ℕ → TestResult
done_from k n = record { code = 0; flag = if ltb n k then false else true }

done_from-EndsAt : (k : ℕ) → EndsAt (done_from k) k
done_from-EndsAt k = record { pending = λ n h. (refl, ground arith); ended = inr (ground arith) }

hooks-yield_example :
    (send_hook 5 mpi_success (done_from 3) runnable
      ≡ some (record {
        code = 0;
        state = state_after (done_from 3 3) mpi_blocked;
        yields = 3;
        status_filled = false;
      }))
    × (recv_hook 5 mpi_success (done_from 3) runnable
        ≡ some (record {
          code = 0;
          state = state_after (done_from 3 3) mpi_blocked;
          yields = 3;
          status_filled = 0 == mpi_success;
        }))
hooks-yield_example = hooks-yield 5 2 (done_from 3) runnable (done_from-EndsAt 3) (omega arith)

-- A receiver whose first test finds the message returns with its status not filled.
not_filled :
    recv_hook 0 mpi_success (done_from 0) runnable
    ≡ some (record { code = 0; state = runnable; yields = 0; status_filled = false })
unfolding recv_hook
not_filled = refl
