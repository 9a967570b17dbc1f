-- ===== src/Scheduler/Tests.antt =====
-- The theorems about the scheduler in concrete worlds.
use mathlib.Core.Option.{map}
use tythread.Base.{
  Bool, List, Ptr, ◌++◌, ◌%◌, Absent, ◌^◌, ◌<◌, ◌≡◌, refl, arith, ◌==◌, if◌then◌else◌, true, false,
  null, [], ◌∷◌, none, some,
}
use tythread.Group.{new_group}
use tythread.Scheduler.Bundle.{end_all}
use tythread.Scheduler.Bundle.Join.{waiting}
use tythread.Scheduler.Bundle.Wake.{HasGot, InNone, bundle-joins}
use tythread.Scheduler.Interleave.Conserve.{start-Good}
use tythread.Scheduler.Shared.{IsOrderly}
use tythread.Scheduler.DebugRun.{debug_run}
use tythread.Scheduler.Polling.{polled, Polled, run_mpi_blocked-Polled}
use tythread.Scheduler.{set_state, run_mpi_blocked, World, steal_from}
use tythread.Scheduler.Steal.{tasks_of, IsStolen, queue_of, steal_from-IsStolen}
use tythread.Skiplist.{empty, enqueue, size, contents}
use tythread.Skiplist.Fill.{blank, fill, fill-IsValid}
use tythread.Task.{mpi_blocked, runnable, group_wait}

-- Thread 1 has 200 tasks, the others none; each task is registered twice with group 7.
abbrev busy : World
busy = record {
  mem = (fill 200 1 (blank, empty)).0;
  task = λ _. record { state = runnable; is_pure = false; groups = 7 ∷ 7 ∷ []; blocked_by = 0 };
  group = λ _. record { blocking_count = 2; blocked_task = null };
  mgr = λ i. record {
    runnable_queue = if i == 1 then (fill 200 1 (blank, empty)).1 else empty;
    mpi_blocked_queue = [];
    current_task = null;
  };
}

abbrev idle : World
idle = record busy {
  mem = blank;
  mgr = λ i. record { runnable_queue = empty; mpi_blocked_queue = []; current_task = null };
}

size_busy : size (queue_of 1 busy) ≡ 200
unfolding fill enqueue size
size_busy = refl

some_busy : 0 < size (queue_of 1 busy)
some_busy = omega (arith, size_busy)

few_busy : size (queue_of 1 busy) < 2 ^ 30
few_busy = omega (arith, size_busy)

steal_from-IsStolen_example :
    ((steal_from 0 1 busy).0 ≡ true) × IsStolen 0 1 busy (steal_from 0 1 busy).1
steal_from-IsStolen_example =
    steal_from-IsStolen 0 1 busy (λ e. absurd (omega arith)) (fill-IsValid 200) some_busy few_busy

fresh_task : Absent 300 (tasks_of 0 idle)
unfolding contents
fresh_task = tt

abbrev new_groups : World
new_groups = record idle { group = λ _. new_group }

abbrev two_more : List Ptr
two_more = 300 ∷ 301 ∷ []

zero_below : 0 < 2
zero_below = omega arith

abbrev waits_for_three : World × Bool
waits_for_three = waiting true 0 7 5 302 two_more new_groups

abbrev two_ended : World
two_ended = end_all (λ p. p % 2) two_more waits_for_three.0

abbrev three_ended : World
three_ended = end_all (λ p. p % 2) (two_more ++ 302 ∷ []) waits_for_three.0

new_groups-IsOrderly : IsOrderly 2 new_groups
new_groups-IsOrderly =
    (start-Good 2 (record { world = new_groups; held = []; made = [] })
      (record { mem = refl; bare = λ k. refl; none_held = refl; none_made = refl })).orderly

in_none : (p : Ptr) → InNone 2 new_groups p
unfolding contents
in_none p k below = tt

bundle-joins_example :
    (waits_for_three.1 ≡ true)
    × HasGot 2 0 (300 ∷ 301 ∷ 302 ∷ []) new_groups two_ended
    × ((two_ended.task 5).state ≡ group_wait)
    × InNone 2 two_ended 5
    × HasGot 2 0 (5 ∷ []) two_ended three_ended
    × ((three_ended.task 5).state ≡ runnable)
    × (three_ended.group 7 ≡ new_group)
bundle-joins_example =
    bundle-joins zero_below true 7 5 302 (λ p. p % 2) two_more new_groups (omega arith) refl
      (omega arith) (omega arith) (omega arith) new_groups-IsOrderly
      (omega arith, in_none 300, (omega arith, in_none 301, (omega arith, in_none 302, tt)))
      (in_none 5) zero_below

-- Of two tasks that wait for MPI the second can go on.
abbrev waits_for_mpi : World
waits_for_mpi = record idle {
  mgr =
      λ i. record { runnable_queue = empty; mpi_blocked_queue = 11 ∷ 12 ∷ []; current_task = null };
}

abbrev test_again : Ptr → World → World × Bool
test_again p w = (set_state p (if p == 12 then runnable else mpi_blocked) w, false)

keeps_waiting : (p : Ptr) (x : World) → polled 0 (test_again p x).0 ≡ polled 0 x
keeps_waiting p x = refl

run_mpi_blocked-Polled_example :
    Polled 0 test_again keeps_waiting
      (11 ∷ 12 ∷ [])
      (11 ∷ 12 ∷ [])
      waits_for_mpi
      (run_mpi_blocked test_again 0 waits_for_mpi)
run_mpi_blocked-Polled_example = run_mpi_blocked-Polled test_again 0 waits_for_mpi keeps_waiting

second_leaves : polled 0 (run_mpi_blocked test_again 0 waits_for_mpi).1 ≡ 11 ∷ []
unfolding run_mpi_blocked enqueue
second_leaves = refl

-- The loop for debugging ends when the second task has ended and the first still waits.
abbrev second_ends : Ptr → World → World × Bool
second_ends p w = if p == 12 then (w, true) else (set_state p mpi_blocked w, false)

debug_run_ends : map (polled 0) (debug_run second_ends 2 0 waits_for_mpi) ≡ some (11 ∷ [])
unfolding debug_run enqueue
debug_run_ends = refl

debug_run_goes_on : debug_run second_ends 1 0 waits_for_mpi ≡ none
unfolding debug_run enqueue
debug_run_goes_on = refl

-- The task that can go on is in the queue of its thread again.
second_ready :
    contents
      (run_mpi_blocked test_again 0 waits_for_mpi).1.mem
      ((run_mpi_blocked test_again 0 waits_for_mpi).1.mgr 0).runnable_queue
    ≡ 12 ∷ []
unfolding run_mpi_blocked enqueue contents
second_ready = refl
