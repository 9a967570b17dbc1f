-- ===== src/Mpi/Hooks.antt =====
-- What the MPI hooks return, after as many yields as the request takes.
use tythread.Base.{
  ℕ, zero, suc, ◌+◌, ◌≤◌, ◌<◌, ◌≡◌, refl, ap, ◌∙◌, ◌≢◌, ◌⊎◌, inl, inr, arith, Bool, true, false,
  some, ◌==◌, if◌then◌else◌, eq_cases,
}
use tythread.Task.{TaskState, mpi_blocked, runnable}
use tythread.Mpi.{TestResult, mpi_success, poll, send_hook, recv_hook}

-- The request is pending before test k, where it ends: with an error or complete.
pub record EndsAt (test : ℕ → TestResult) (k : ℕ) : Type 0 where
  pub pending : (n : ℕ) → n < k → ((test n).code ≡ mpi_success) × ((test n).flag ≡ false)
  pub ended : ((test k).code ≢ mpi_success) ⊎ ((test k).flag ≡ true)

-- The state behind the test that ends the loop.
abbrev pub state_after : TestResult → TaskState → TaskState
state_after r state = if r.code == mpi_success then runnable else state

abbrev filled_after : TestResult → Bool → Bool
filled_after r with_status = if r.code == mpi_success then with_status else false

poll-ends :
    (fuel n k : ℕ) (with_status : Bool) (test : ℕ → TestResult) (state : TaskState)
    → EndsAt test k
    → n ≤ k
    → k < n + fuel
    → poll fuel with_status test n state
      ≡ some (record {
        code = (test k).code;
        state = state_after (test k) state;
        yields = k;
        status_filled = filled_after (test k) with_status;
      })
unfolding poll
poll-ends zero n k with_status test state ends le lt = absurd (omega arith)
poll-ends (suc fuel) n k with_status test state ends le lt = elim (eq_cases n k) [
  | inl (_, e) ↦ rw e (elim (eq_cases (test k).code mpi_success) [
    | inl (ok, is) ↦ rw ok (elim ends.ended [ inl bad ↦ absurd (bad is) | inr done ↦ rw done refl ])
    | inr (bad, _) ↦ rw bad refl
  ])
  | inr (_, ne) ↦
      (let (ok, waits) = ends.pending n (omega arith) in
        rw (ok, waits)
          (poll-ends fuel (suc n) k with_status test state ends (omega arith) (omega arith)))
]

module _ (fuel k : ℕ) (test : ℕ → TestResult) (state : TaskState) (ends : EndsAt test (suc k))
    (enough : k < fuel) where
  -- A call whose request is started and ends at the test behind the (k + 1)-th yield returns what that
  -- test reports: the task is runnable again if the test succeeds, and keeps the blocked state if it
  -- fails. Fuel above k is enough. The receiver's status is filled just when the request succeeds.
  pub hooks-yield :
      (send_hook fuel mpi_success test state
        ≡ some (record {
          code = (test (suc k)).code;
          state = state_after (test (suc k)) mpi_blocked;
          yields = suc k;
          status_filled = false;
        }))
      × (recv_hook fuel mpi_success test state
          ≡ some (record {
            code = (test (suc k)).code;
            state = state_after (test (suc k)) mpi_blocked;
            yields = suc k;
            status_filled = (test (suc k)).code == mpi_success;
          }))
  unfolding send_hook recv_hook
  hooks-yield =
      let (ok, waits) = ends.pending 0 (omega arith) in
      let send = poll-ends fuel 1 (suc k) false test mpi_blocked ends (omega arith) (omega arith) in
      let recv = poll-ends fuel 1 (suc k) true test mpi_blocked ends (omega arith) (omega arith) in
      let never_filled : filled_after (test (suc k)) false ≡ false = ground arith in
      let filled_on_success : filled_after (test (suc k)) true
          ≡ ((test (suc k)).code == mpi_success) =
        ground arith in
      (
        rw (ok, waits)
            (send
              ∙ ap
                  (λ b. some (record {
                    code = (test (suc k)).code;
                    state = state_after (test (suc k)) mpi_blocked;
                    yields = suc k;
                    status_filled = b;
                  }))
                  never_filled),
        rw (ok, waits)
            (recv
              ∙ ap
                  (λ b. some (record {
                    code = (test (suc k)).code;
                    state = state_after (test (suc k)) mpi_blocked;
                    yields = suc k;
                    status_filled = b;
                  }))
                  filled_on_success),
      )
