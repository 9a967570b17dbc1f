-- ===== src/Mediator/Tests.antt =====
-- Two threads: thread 0 makes a task and takes it, thread 1 sleeps, and both end.
use tythread.Base.{
  inr, times, ℕ, zero, suc, ◌<◌, ◌≡◌, ◌↔◌, refl, arith, true, false, [], ◌∷◌, null, update,
}
use tythread.Mediator.{
  Stage, init, fall_asleep, wake, terminate_gracefully, next_of, add_and_notify, work, terminates,
  leave_move, sleep_move, wake_move, stop_move, sweep_move, joined, Moves, here, after,
}
use tythread.Mediator.Closing.{Moves-closed}
use tythread.Mediator.Ending.{Moves-end}
use tythread.Mediator.Others.{HasNone}
use tythread.Mediator.Sleep.{sleepers, Moves-sleepers}
use tythread.Scheduler.{go, take_runnable, set_state}
use tythread.Scheduler.Interleave.{Scene, spawn, take, local, IsStart}
use tythread.Skiplist.{empty, contents}
use tythread.Skiplist.Fill.{blank}
use tythread.Task.{runnable, terminated}

abbrev start : Scene
start = record {
  world = record {
    mem = blank;
    task = λ _. record { state = runnable; is_pure = false; groups = []; blocked_by = 0 };
    group = λ _. record { blocking_count = 0; blocked_task = null };
    mgr = λ _. record { runnable_queue = empty; mpi_blocked_queue = []; current_task = null };
  };
  held = [];
  made = [];
}

start-IsStart : IsStart start
start-IsStart = record { mem = refl; bare = λ k. refl; none_held = refl; none_made = refl }

abbrev asleep_one : Stage
asleep_one = fall_asleep 1 (init start)

asleep_one-Moves : Moves 2 (init start) asleep_one
unfolding init next_of
asleep_one-Moves = after here (
    sleep_move 1 (init start) (omega arith)
      (record { running = refl; awake = refl; not_sweeping = λ e. refl }) refl refl)

abbrev one_task : Scene
one_task = record { world = go true 0 100 start.world; held = []; made = 100 ∷ [] }

abbrev one_taken : Scene
one_taken = record { world = (take_runnable 0 one_task.world).1; held = 100 ∷ []; made = 100 ∷ [] }

abbrev made_one : Stage
made_one = record asleep_one {
  scene = one_task;
  inside = update asleep_one.inside 0 (asleep_one.inside 0);
}

abbrev took_one : Stage
took_one = record made_one { scene = one_taken; inside = update made_one.inside 0 100 }

took_one-Moves : Moves 2 (init start) took_one
unfolding init fall_asleep go take_runnable
took_one-Moves =
    after
      (after asleep_one-Moves (
        work 0 asleep_one one_task
          (spawn true 0 100 start (omega arith) (omega arith) tt (omega arith)) (omega arith)
          (record { running = refl; awake = refl; not_sweeping = λ e. refl }) refl))
      (work 0 made_one one_taken (take 0 one_task (omega arith)) (omega arith)
        (record { running = refl; awake = refl; not_sweeping = λ e. refl }) refl)

-- The task ends, and thread 0 is back in its loop.
abbrev one_over : Scene
one_over = record one_taken { world = set_state 100 terminated one_taken.world }

abbrev ran_one : Stage
ran_one = record took_one {
  scene = one_over;
  inside = update took_one.inside 0 (took_one.inside 0);
}

abbrev back : Stage
back = record ran_one { inside = update ran_one.inside 0 null }

abbrev woken : Stage
woken = terminate_gracefully (wake 1 back)

abbrev one_ended : Stage
one_ended = record woken { ended = update woken.ended 1 true }

abbrev sweeping : Stage
sweeping = record one_ended { sweeping = true }

abbrev over : Stage
over = record sweeping { ended = update sweeping.ended 0 true }

others_ended : (k : ℕ) → 0 < k → k < 2 → sweeping.ended k ≡ true
others_ended zero a b = absurd (omega arith)
others_ended (suc zero) a b = refl
others_ended (suc (suc k)) a b = absurd (omega arith)

over-Moves : Moves 2 (init start) over
unfolding init fall_asleep wake terminate_gracefully next_of go take_runnable
over-Moves =
    after
      (after
        (after
          (after
            (after
              (after
                (after took_one-Moves (
                  work 0 took_one one_over
                    (local one_over.world one_taken.world.mem.counter one_taken refl (λ k. refl))
                    (omega arith)
                    (record { running = refl; awake = refl; not_sweeping = λ e. refl })
                    (λ k ne. refl)))
                (leave_move 0 ran_one (omega arith)
                  (record { running = refl; awake = refl; not_sweeping = λ e. refl }) (inr refl)))
              (wake_move 1 back (omega arith) refl))
            (terminates (wake 1 back)))
          (stop_move 1 woken (omega arith)
            (record { running = refl; awake = refl; not_sweeping = λ e. refl }) refl
            (record { none_taken = refl; none_blocked = refl }) refl))
        (sweep_move 0 one_ended (omega arith)
          (record { running = refl; awake = refl; not_sweeping = λ e. refl }) refl
          (record { none_taken = refl; none_blocked = refl }) refl))
      (joined sweeping refl others_ended)

Moves-sleepers_example :
    (took_one.sleep_count ≡ sleepers 2 took_one)
    × (((add_and_notify 0 100 took_one).0 ≡ true)
        ↔ ((k : ℕ) × (k < 2) × (took_one.asleep k ≡ true)))
Moves-sleepers_example = Moves-sleepers 2 start took_one (omega arith) took_one-Moves 0 100

Moves-closed_example :
    (over.ended 1 ≡ true)
    × HasNone 1 over.scene.world
    × (times 100 over.scene.held ≡ times 100 over.scene.made)
Moves-closed_example =
    Moves-closed 2 start over (omega arith) start-IsStart over-Moves refl 1 (omega arith) 100

-- Nothing is made, thread 1 sleeps, and the end is asked for.
abbrev asked : Stage
asked = terminate_gracefully asleep_one

none_asked : (k : ℕ) → k < 2 → HasNone k asked.scene.world
unfolding terminate_gracefully fall_asleep init contents
none_asked k b = record { queue = refl; blocked = refl }

Moves-end_example : (z : Stage) × Moves 2 asked z × (z.scene ≡ asked.scene) × (z.ended 0 ≡ true)
unfolding terminate_gracefully fall_asleep init
Moves-end_example =
    Moves-end 2 start asked (omega arith) start-IsStart
      (after asleep_one-Moves (terminates asleep_one)) refl none_asked (λ k b. refl)
