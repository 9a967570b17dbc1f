-- ===== src/Scheduler/DebugRun.antt =====
-- The loop of `PerThreadMgr::debug_run` in PerThreadMgr.hh, on fuel: its result is the world in which
-- it ends, or none if it goes on for more rounds than the fuel.
use mathlib.Core.Option.{none-ne-some}
use tythread.Base.{ℕ, zero, suc, ◌≡◌, Bool, true, false, if◌then◌else◌, Option, none, some, Ptr}
use tythread.Scheduler.{World, run_runnable, run_mpi_blocked}

unfoldable pub debug_run : (Ptr → World → World × Bool) → ℕ → ℕ → World → Option World
unfolding run_runnable run_mpi_blocked
debug_run run zero me w = none
debug_run run (suc n) me w =
    let own = run_runnable run me w in
    let polled = run_mpi_blocked run me own.1 in
    let rest = debug_run run n me (if own.0 then own.1 else polled.1) in
    if own.0 then rest else if polled.0 then rest else some polled.1

-- The two tests of a round, where the rounds after it end in w' as well with more fuel.
round-suc :
    (ran one : Bool) (rest rest' : Option World) (last w' : World)
    → (rest ≡ some w' → rest' ≡ some w')
    → (if ran then rest else if one then rest else some last) ≡ some w'
    → (if ran then rest' else if one then rest' else some last) ≡ some w'
round-suc true one rest rest' last w' more e = more e
round-suc false true rest rest' last w' more e = more e
round-suc false false rest rest' last w' more e = e

-- A world in which the loop ends with some fuel is the one in which it ends with more.
debug_run-suc :
    (run : Ptr → World → World × Bool) (n me : ℕ) (w w' : World)
    → debug_run run n me w ≡ some w'
    → debug_run run (suc n) me w ≡ some w'
unfolding debug_run
debug_run-suc run zero me w w' e = absurd (none-ne-some w' e)
debug_run-suc run (suc n) me w w' e =
    let own = run_runnable run me w in
    let polled = run_mpi_blocked run me own.1 in
    let next : World = if own.0 then own.1 else polled.1 in
    round-suc own.0 polled.0 (debug_run run n me next) (debug_run run (suc n) me next) polled.1 w'
      (debug_run-suc run n me next w') e
