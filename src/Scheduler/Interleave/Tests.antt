-- ===== src/Scheduler/Interleave/Tests.antt =====
-- A run of two threads: thread 0 makes two tasks and takes one, thread 1 steals the other.
use tythread.Base.{
  Absent, length, subst, sym, ap, times, ℕ, zero, suc, ◌+◌, ◌^◌, ◌≤◌, ◌<◌, ◌≡◌, refl, arith, Bool,
  true, false, [], ◌∷◌, null,
}
use tythread.Scheduler.{set_state, World, go, steal_from, take_runnable, run_once, run_runnable}
use tythread.Scheduler.Interleave.{Scene, spawn, take, steal_step, Reach, here, after, IsStart}
use tythread.Scheduler.Interleave.Conserve.{Reach-once, Reach-IsOrderly}
use tythread.Scheduler.Interleave.Rounds.{Leads}
use tythread.Scheduler.Interleave.Parked.{AreParked, Runs, Ends}
use tythread.Scheduler.Interleave.Own.{run_runnable-Leads}
use tythread.Scheduler.Idle.{IsReady, AllBare, run_once-idle}
use tythread.Scheduler.Steal.{queue_of, tasks_of}
use tythread.Sum.{total}
use tythread.Skiplist.{empty, contents, size}
use tythread.Skiplist.Fill.{blank}
use tythread.Skiplist.Stack.{IsValid}
use tythread.Task.{runnable, terminated}

abbrev start : Scene
start = record {
  world = record {
    mem = blank;
    task = λ _. record { state = runnable; is_pure = false; groups = []; blocked_by = 0 };
    group = λ _. record { blocking_count = 0; blocked_task = null };
    mgr = λ _. record { runnable_queue = empty; mpi_blocked_queue = []; current_task = null };
  };
  held = [];
  made = [];
}

start-IsStart : IsStart start
start-IsStart = record { mem = refl; bare = λ k. refl; none_held = refl; none_made = refl }

abbrev one_task : Scene
one_task = record { world = go true 0 100 start.world; held = []; made = 100 ∷ [] }

abbrev two_tasks : Scene
two_tasks = record { world = go false 0 101 one_task.world; held = []; made = 101 ∷ 100 ∷ [] }

two_tasks-Reach : Reach 2 start two_tasks
two_tasks-Reach =
    after (after here (spawn true 0 100 start (omega arith) (omega arith) tt (omega arith))) (
      spawn false 0 101 one_task (omega arith) (omega arith) ((λ e. omega arith), tt) (omega arith))

thief_bare : tasks_of 1 two_tasks.world ≡ []
unfolding go contents
thief_bare = refl

abbrev stolen_one : Scene
stolen_one = record { world = (steal_from 1 0 two_tasks.world).1; held = []; made = 101 ∷ 100 ∷ [] }

stolen_one-Reach : Reach 2 start stolen_one
stolen_one-Reach =
    after two_tasks-Reach
      (steal_step 1 0 two_tasks (omega arith) (omega arith) (λ e. omega arith) thief_bare)

Reach-once_example :
    IsValid stolen_one.world.mem (queue_of 1 stolen_one.world)
    × (total 2 (λ k. times 100 (tasks_of k stolen_one.world)) + times 100 stolen_one.held
        ≡ times 100 stolen_one.made)
    × (times 100 stolen_one.made ≤ 1)
Reach-once_example =
    Reach-once 2 start stolen_one start-IsStart stolen_one-Reach 1 (omega arith) 100

few_two : (k : ℕ) → k < 2 → size (queue_of k two_tasks.world) < 2 ^ 30
unfolding go size
few_two zero h = omega arith
few_two (suc zero) h = omega arith
few_two (suc (suc k)) h = absurd (omega arith)

-- Thread 0 has taken the one task that was made.
abbrev one_taken : Scene
one_taken = record { world = (take_runnable 0 one_task.world).1; held = 100 ∷ []; made = 100 ∷ [] }

one_taken-Reach : Reach 2 start one_taken
unfolding go take_runnable
one_taken-Reach =
    after (after here (spawn true 0 100 start (omega arith) (omega arith) tt (omega arith)))
      (take 0 one_task (omega arith))

few_taken : (k : ℕ) → k < 2 → size (queue_of k one_taken.world) < 2 ^ 30
unfolding go size take_runnable
few_taken zero h = omega arith
few_taken (suc zero) h = omega arith
few_taken (suc (suc k)) h = absurd (omega arith)

abbrev at_once : ℕ → World → World × Bool
at_once p w = (w, true)

-- The other thread ends its task before each try.
abbrev ends : ℕ → World → World
ends i w = set_state 100 terminated w

ends-IsReady : (i : ℕ) (x : World) → IsReady 2 x → IsReady 2 (ends i x)
ends-IsReady i x r = record {
  orderly = record { at = r.orderly.at; all = r.orderly.all };
  few = r.few;
}

none_found : (run_once at_once ends 1 2 one_taken.world).0 ≡ false
unfolding run_once go take_runnable
none_found = refl

one_taken-IsReady : IsReady 2 one_taken.world
one_taken-IsReady = record {
  orderly = Reach-IsOrderly 2 start one_taken start-IsStart one_taken-Reach;
  few = few_taken;
}

run_once-idle_example :
    (tasks_of 1 one_taken.world ≡ [])
    × ((x : World) × AllBare ends 1 0 2 (take_runnable 1 one_taken.world).1 x
        × ((run_once at_once ends 1 2 one_taken.world).1 ≡ ends 2 x))
    × (((run_once at_once ends 1 2 one_taken.world).1.mgr 1).mpi_blocked_queue ≡ [])
run_once-idle_example =
    run_once-idle at_once ends 1 2 one_taken.world (omega arith) one_taken-IsReady ends-IsReady
      none_found

zero_below : 0 < 2
zero_below = omega arith

one_below : 1 < 2
one_below = omega arith

one_task-Reach : Reach 2 start one_task
one_task-Reach = after here (spawn true 0 100 start (omega arith) (omega arith) tt (omega arith))

-- A callback that makes a task and ends.
abbrev spawns : ℕ → World → World × Bool
spawns p w = (go true 0 200 w, true)

-- It acts in steps while task 100 is the only one that is made.
spawns-Ends : (p : ℕ) (y : Scene) → y.made ≡ 100 ∷ [] → Runs p y → Ends 2 p y (spawns p y.world).0
unfolding go
spawns-Ends p y one r =
    let new : Absent 200 y.made = subst (Absent 200) (sym one) ((omega arith), tt) in
    let few : suc (length y.made) < 2 ^ 30 = omega (arith, ap length one) in
    record {
      held = y.held;
      made = 200 ∷ y.made;
      reach = after here (spawn true 0 200 y zero_below (omega arith) new few);
      runs = record {
        parked = record { in_hands = r.parked.in_hands; distinct = r.parked.distinct };
        mine = r.mine;
        away = r.away;
      };
    }

one_task-AreParked : AreParked one_task
unfolding go
one_task-AreParked = record {
  in_hands = λ g some. absurd (some refl);
  distinct = λ g h ne some. absurd (some refl);
}

run_runnable-Leads_example : Leads 2 one_task (run_runnable spawns 0 one_task.world).1
run_runnable-Leads_example =
    run_runnable-Leads {n = 2} {me = 0} zero_below spawns start one_task spawns-Ends start-IsStart
      one_task-Reach one_task-AreParked
