-- ===== src/Group.antt =====
-- A group of tasks that one task waits for, TaskGroup.cc, and the latch of co_user.hh built on it.
pub mod Protocol
pub mod Latch
pub mod Tests
use tythread.Base.{
  ℕ, zero, suc, ◌+◌, ◌-◌, ◌%◌, ◌^◌, ◌<◌, ◌≡◌, Bool, true, false, not, ◌==◌, if◌then◌else◌, Ptr,
  null,
}

-- `blocking_count` is an `int`: -1 is 2 ^ 32 - 1.
pub record Group : Type 0 where
  pub blocking_count : ℕ
  pub blocked_task : Ptr

abbrev pub int_pred : ℕ → ℕ
int_pred n = (n + (2 ^ 32 - 1)) % 2 ^ 32

abbrev pub int_succ : ℕ → ℕ
int_succ n = (n + 1) % 2 ^ 32

abbrev pub new_group : Group
new_group = record { blocking_count = 0; blocked_task = null }

-- `Task::addToGroup` and `TaskGroup::registe`, for a task that is finished or not.
unfoldable pub registe : Bool → Group → Group
registe is_fini g = if is_fini then g else record g { blocking_count = int_succ g.blocking_count }

-- `TaskGroup::informDone`: the group behind it, and the task that now can run, or null.
unfoldable pub inform_done : Group → Group × Ptr
inform_done g =
    if int_pred g.blocking_count == 0
    then (
      record { blocking_count = int_pred g.blocking_count; blocked_task = null },
      g.blocked_task,
    )
    else (record g { blocking_count = int_pred g.blocking_count }, null)

-- The test of `TaskGroup::wait`: whether the task yields.
unfoldable pub must_wait : Group → Bool
must_wait g = not (g.blocking_count == 0)

-- `TaskGroup::resumeIfNothingToWait`, behind the yield.
unfoldable pub resume_if_nothing_to_wait : Ptr → Group → Group × Bool
resume_if_nothing_to_wait p g =
    if g.blocking_count == 0 then (g, true) else (record g { blocked_task = p }, false)

-- Where the task that calls `wait` is: before the test; behind it, on its way out of its coroutine;
-- held by the group; runnable, or past the call.
pub data Phase : Type 0 where
  before leaving parked resumed : Phase

-- The group, the members that have not finished, and the waiting task.
pub record Sys : Type 0 where
  pub group : Group
  pub left : ℕ
  pub phase : Phase

-- A member finishes.
unfoldable pub finish : Sys → Sys
unfolding inform_done
finish s =
    let (g, p) = inform_done s.group in
    record { group = g; left = s.left - 1; phase = if p == null then s.phase else resumed }

-- The waiting task makes its test.
unfoldable pub look : Sys → Sys
unfolding must_wait
look s = record s { phase = if must_wait s.group then leaving else resumed }

-- The thread of the waiting task has left its coroutine.
unfoldable pub park : Ptr → Sys → Sys
unfolding resume_if_nothing_to_wait
park p s =
    let (g, ready) = resume_if_nothing_to_wait p s.group in
    record s { group = g; phase = if ready then resumed else parked }

-- The interleavings: each step is one critical section.
pub data Step (p : Ptr) : Sys → Sys → Type 0 where
  finishes : (s : Sys) → 0 < s.left → Step p s (finish s)
  looks : (s : Sys) → s.phase ≡ before → Step p s (look s)
  parks : (s : Sys) → s.phase ≡ leaving → Step p s (park p s)

pub data Steps (p : Ptr) : Sys → Sys → Type 0 where
  done : (s : Sys) → Steps p s s
  more : (s t u : Sys) → Step p s t → Steps p t u → Steps p s u

-- `registe` for n members that are not finished.
unfoldable pub register_all : ℕ → Group → Group
unfolding registe
register_all zero g = g
register_all (suc n) g = register_all n (registe false g)

-- The waiting task is about to wait for n members.
abbrev pub start : ℕ → Sys
unfolding register_all
start n = record { group = register_all n new_group; left = n; phase = before }
