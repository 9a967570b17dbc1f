-- ===== src/Scheduler/Interleave.antt =====
-- Any interleaving of what n threads do to their queues: spawn, resume, take and steal.
pub mod Queued
pub mod Rounds
pub mod Held
pub mod Own
pub mod Parked
pub mod Conserve
pub mod Tests
use tythread.Base.{
  times, ℕ, zero, suc, ◌+◌, ◌-◌, ◌^◌, ◌≤◌, ◌<◌, ◌≡◌, refl, sym, ap, ap₂, ◌∙◌, ◌≢◌, ◌⊎◌, inl, inr,
  arith, Bool, List, [], ◌∷◌, ◌++◌, eq_cases, ◌==◌, false, true, if◌then◌else◌, Ptr, null, Absent,
  length, update, subst,
}
use tythread.Scheduler.{World, Task, go, add_runnable, take_runnable, steal_from, erase}
use tythread.Scheduler.Shared.{
  IsOrderly, Leaves, OthersKeep, add_runnable-Leaves, take_runnable-Leaves, take_runnable-tasks,
}
use tythread.Scheduler.Steal.{queue_of, tasks_of}
use tythread.Sum.{total, total-same, total-zero, total-one, total-two, total-part}
use tythread.Scheduler.Sum.{
  weight, weight-++, weight-one, weight-length, mark, weight-times, times-Absent, Absent-times,
  weight-erase,
}
use tythread.Scheduler.Theft.{Robs, steal_from-Robs, no_theft-tasks, local-tasks, local-IsOrderly}
use tythread.Task.{initial}
use tythread.Skiplist.{Mem, Skiplist, empty, contents, size}
use tythread.Skiplist.Fill.{blank, empty-IsStack}
use tythread.Skiplist.Stack.{IsStack, IsValid, size-length}

-- The world, the tasks that are in no queue but in some thread's hands, and all tasks ever made.
pub record Scene : Type 0 where
  pub world : World
  pub held : List Ptr
  pub made : List Ptr

abbrev pub hold : Ptr → List Ptr → List Ptr
hold p held = if p == null then held else p ∷ held

-- A step of one of n threads. `local` is what a thread does besides: it writes no queue, no link and
-- no node, but counters, tasks and groups.
pub data Step (n : ℕ) : Scene → Scene → Type 0 where
  spawn :
      (is_pure : Bool) (me : ℕ) (p : Ptr) (x : Scene)
      → me < n
      → 0 < p
      → Absent p x.made
      → suc (length x.made) < 2 ^ 30
      → Step n x (record { world = go is_pure me p x.world; held = x.held; made = p ∷ x.made })
  resume :
      (me : ℕ) (p : Ptr) (x : Scene)
      → me < n
      → 0 < times p x.held
      → Step n x (record x { world = add_runnable me p x.world; held = erase p x.held })
  take :
      (me : ℕ) (x : Scene)
      → me < n
      → Step n x (record x {
        world = (take_runnable me x.world).1;
        held = hold (take_runnable me x.world).0 x.held;
      })
  steal_step :
      (me i : ℕ) (x : Scene)
      → me < n
      → i < n
      → i ≢ me
      → tasks_of me x.world ≡ []
      → Step n x (record x { world = (steal_from me i x.world).1 })
  local :
      (w' : World) (c : Ptr → ℕ) (x : Scene)
      → w'.mem ≡ record x.world.mem { counter = c }
      → ((k : ℕ) → queue_of k w' ≡ queue_of k x.world)
      → Step n x (record x { world = w' })

-- Steps one after another.
pub data Reach (n : ℕ) (x : Scene) : Scene → Type 0 where
  here : Reach n x x
  after : {y z : Scene} → Reach n x y → Step n y z → Reach n x z

-- No queue has a task, and none is made.
pub record IsStart (x : Scene) : Type 0 where
  pub mem : x.world.mem ≡ blank
  pub bare : (k : ℕ) → queue_of k x.world ≡ empty
  pub none_held : x.held ≡ []
  pub none_made : x.made ≡ []
