-- ===== src/Mediator.antt =====
-- `GlobalMediator`: the main loop of its threads, their sleep and how they end, GlobalMediator.cc
-- and `PerThreadMgr::wait_task`.
pub mod Closing
pub mod Ending
pub mod Others
pub mod Sleep
mod Tests
use tythread.Base.{
  times, ◌⊎◌, ℕ, ◌+◌, ◌-◌, ◌%◌, ◌^◌, ◌≤◌, ◌<◌, ◌≡◌, ◌≢◌, Bool, true, false, not, ◌==◌,
  if◌then◌else◌, List, [], Ptr, null, update,
}
use tythread.Task.{TaskState, initial, runnable, mpi_blocked, group_wait, terminated}
use tythread.Scheduler.{World, add_runnable, take_runnable}
use tythread.Scheduler.Interleave.{Scene, Step, spawn, resume, take, steal_step, local, IsStart}

-- What a round of the loop of `run` comes to.
pub data Next : Type 0 where
  keeps_on sleeps stops sweeps : Next

-- The branches of `run`, for thread `me`: `found` is what `run_once` returned.
unfoldable pub next_of : Bool → Bool → ℕ → Next
next_of found terminatable me =
    if found
    then keeps_on
    else if not terminatable
    then sleeps
    else if not (me == 0)
    then stops
    else sweeps

-- The program with what the threads do besides their tasks: which of them sleep in `wait_task`, and
-- for which `run` has returned. Thread 0 is `sweeping` when it waits for the others. `inside` has
-- the task that a thread runs, from when it takes it, or begins to poll one that waits for MPI, until it
-- comes back to its loop, and null else.
pub record Stage : Type 0 where
  pub scene : Scene
  pub terminatable : Bool
  pub sleep_count : ℕ
  pub asleep : ℕ → Bool
  pub sweeping : Bool
  pub ended : ℕ → Bool
  pub inside : ℕ → Ptr

-- `Init`: the threads are there, and each starts its loop.
unfoldable pub init : Scene → Stage
init x = record {
  scene = x;
  terminatable = false;
  sleep_count = 0;
  asleep = λ k. false;
  sweeping = false;
  ended = λ k. false;
  inside = λ k. null;
}

-- `wait_task` before and behind the wait; `sleep_count` is an `int`.
unfoldable pub fall_asleep : ℕ → Stage → Stage
fall_asleep me x = record x {
  sleep_count = (x.sleep_count + 1) % 2 ^ 32;
  asleep = update x.asleep me true;
}

unfoldable pub wake : ℕ → Stage → Stage
wake me x = record x {
  sleep_count = (x.sleep_count + (2 ^ 32 - 1)) % 2 ^ 32;
  asleep = update x.asleep me false;
}

-- `addRunnable`, of thread `me`: whether it notifies a thread that sleeps, and the world.
unfoldable pub add_and_notify : ℕ → Ptr → Stage → Bool × World
add_and_notify me p x = (not (x.sleep_count == 0), add_runnable me p x.scene.world)

-- `TerminateGracefully`.
unfoldable pub terminate_gracefully : Stage → Stage
terminate_gracefully x = record x { terminatable = true }

abbrev pub mpi_blocked_of : ℕ → World → List Ptr
mpi_blocked_of k w = (w.mgr k).mpi_blocked_queue

-- The step is one of thread `me`.
abbrev pub By : {n : ℕ} {x y : Scene} → ℕ → Step n x y → Type 0
By a (spawn is_pure me p x below pos new room) = a ≡ me
By a (resume me p x below some) = a ≡ me
By a (take me x below) = a ≡ me
By a (steal_step me i x mine below ne bare) = a ≡ me
By a (local w' c x counts same) = (k : ℕ) → k ≢ a → mpi_blocked_of k w' ≡ mpi_blocked_of k x.world

-- The task that a thread is inside behind its step: one that it takes is one that it runs.
abbrev pub inside_after : {n : ℕ} {x y : Scene} → Step n x y → Ptr → Ptr
inside_after (spawn is_pure me p x below pos new room) b = b
inside_after (resume me p x below some) b = b
inside_after (take me x below) b =
    if (take_runnable me x.world).0 == null then b else (take_runnable me x.world).0
inside_after (steal_step me i x mine below ne bare) b = b
inside_after (local w' c x counts same) b = b

-- Thread `me` runs.
pub record IsUp (me : ℕ) (x : Stage) : Type 0 where
  pub running : x.ended me ≡ false
  pub awake : x.asleep me ≡ false
  pub not_sweeping : me ≡ 0 → x.sweeping ≡ false

-- `run_once` of thread `me` comes to nothing only if it takes no task and has none that waits for MPI.
pub record FindsNone (me : ℕ) (x : Stage) : Type 0 where
  pub none_taken : (take_runnable me x.scene.world).0 ≡ null
  pub none_blocked : mpi_blocked_of me x.scene.world ≡ []

-- A task that is in hands still has been put aside: it waits or has terminated.
abbrev pub is_aside : TaskState → Bool
is_aside initial = false
is_aside runnable = false
is_aside mpi_blocked = true
is_aside group_wait = true
is_aside terminated = true

-- What one of the n threads does next.
pub data Move (n : ℕ) : Stage → Stage → Type 0 where
  work :
      (me : ℕ) (x : Stage) (y : Scene) (s : Step n x.scene y)
      → me < n
      → IsUp me x
      → By me s
      → Move n x
          (record x { scene = y; inside = update x.inside me (inside_after s (x.inside me)) })
  poll_move :
      (me : ℕ) (x : Stage)
      → me < n
      → IsUp me x
      → x.inside me ≡ null
      → (p : Ptr) → 0 < times p (mpi_blocked_of me x.scene.world)
      → Move n x (record x { inside = update x.inside me p })
  leave_move :
      (me : ℕ) (x : Stage)
      → me < n
      → IsUp me x
      → (times (x.inside me) x.scene.held ≡ 0)
        ⊎ (is_aside (x.scene.world.task (x.inside me)).state ≡ true)
      → Move n x (record x { inside = update x.inside me null })
  terminates : (x : Stage) → Move n x (terminate_gracefully x)
  sleep_move :
      (me : ℕ) (x : Stage)
      → me < n
      → IsUp me x
      → x.inside me ≡ null
      → next_of false x.terminatable me ≡ sleeps
      → Move n x (fall_asleep me x)
  wake_move : (me : ℕ) (x : Stage) → me < n → x.asleep me ≡ true → Move n x (wake me x)
  stop_move :
      (me : ℕ) (x : Stage)
      → me < n
      → IsUp me x
      → x.inside me ≡ null
      → FindsNone me x
      → next_of false x.terminatable me ≡ stops
      → Move n x (record x { ended = update x.ended me true })
  sweep_move :
      (me : ℕ) (x : Stage)
      → me < n
      → IsUp me x
      → x.inside me ≡ null
      → FindsNone me x
      → next_of false x.terminatable me ≡ sweeps
      → Move n x (record x { sweeping = true })
  joined :
      (x : Stage)
      → x.sweeping ≡ true
      → ((k : ℕ) → 0 < k → k < n → x.ended k ≡ true)
      → Move n x (record x { ended = update x.ended 0 true })

-- Moves one after another.
pub data Moves (n : ℕ) (x : Stage) : Stage → Type 0 where
  here : Moves n x x
  after : {y z : Stage} → Moves n x y → Move n y z → Moves n x z
