-- ===== src/Scheduler.antt =====
-- The scheduler: Task.cc, PerThreadMgr.cc and GlobalMediator.cc over the queues and the groups.
pub mod Shared
pub mod Bundle
pub mod Polling
pub mod DebugRun
pub mod Spawn
pub mod Interleave
pub mod Sum
pub mod Steal
pub mod Terminate
pub mod Theft
pub mod Idle
pub mod Tests
use tythread.Base.{
  ℕ, zero, suc, ◌+◌, Bool, true, false, Option, none, some, List, [], ◌∷◌, ◌++◌, ◌==◌, ltb,
  if◌then◌else◌, Ptr, null, update,
}
use tythread.Group.{Group, registe, inform_done, must_wait, resume_if_nothing_to_wait}
use tythread.Skiplist.{Mem, Skiplist, empty, enqueue, dequeue, replace}
use tythread.Skiplist.Half.{dequeue_half}
use tythread.Task.{TaskState, initial, runnable, mpi_blocked, group_wait, terminated}

-- A task: `groups` are the first `cur_groups` of its array, for which `max_groups` is large enough.
pub record Task : Type 0 where
  pub state : TaskState
  pub is_pure : Bool
  pub groups : List ℕ
  pub blocked_by : ℕ

pub record PerThreadMgr : Type 0 where
  pub runnable_queue : Skiplist
  pub mpi_blocked_queue : List Ptr
  pub current_task : Ptr

-- All that the threads share; tasks by their address, groups and threads by number.
pub record World : Type 0 where
  pub mem : Mem
  pub task : Ptr → Task
  pub group : ℕ → Group
  pub mgr : ℕ → PerThreadMgr

abbrev pub set_state : Ptr → TaskState → World → World
set_state p st w = record w { task = update w.task p (record (w.task p) { state = st }) }

-- `PerThreadMgr::addRunnable`, of thread `me`.
abbrev pub add_runnable : ℕ → Ptr → World → World
unfolding enqueue
add_runnable me p w =
    let (m, s) = enqueue p w.mem (w.mgr me).runnable_queue in
    record w { mem = m; mgr = update w.mgr me (record (w.mgr me) { runnable_queue = s }) }

abbrev pub is_fini : TaskState → Bool
is_fini initial = false
is_fini runnable = false
is_fini mpi_blocked = false
is_fini group_wait = false
is_fini terminated = true

-- `Task::addToGroup`: whether the task was added.
unfoldable pub add_to_group : ℕ → Ptr → World → Bool × World
unfolding registe
add_to_group g p w =
    let t = w.task p in
    if is_fini t.state then (false, w) else (
      true,
      record w {
        task = update w.task p (record t { groups = t.groups ++ g ∷ [] });
        group = update w.group g (registe false (w.group g));
      },
    )

-- `TaskGroup::informDone`, run by thread `me`.
unfoldable pub inform_group : ℕ → ℕ → World → World
unfolding inform_done add_runnable
inform_group me g w =
    let (g', p) = inform_done (w.group g) in
    let w' : World = record w { group = update w.group g g' } in
    if p == null then w' else add_runnable me p (set_state p runnable w')

-- The loop of `Task::terminate`.
unfoldable pub inform_all : ℕ → List ℕ → World → World
unfolding inform_group
inform_all me [] w = w
inform_all me (g ∷ gs) w = inform_all me gs (inform_group me g w)

-- `Task::terminate`.
unfoldable pub terminate : ℕ → Ptr → World → World
unfolding inform_all
terminate me p w = inform_all me (w.task p).groups (set_state p terminated w)

-- `PerThreadMgr::handle_after_continuationOut`.
unfoldable pub handle_after_continuation_out : ℕ → Ptr → World → World
unfolding add_runnable resume_if_nothing_to_wait
handle_after_continuation_out me p w =
    let mgr = w.mgr me in
    let g = (w.task p).blocked_by in
    let (g', ready) = resume_if_nothing_to_wait p (w.group g) in
    let w' : World = record w { group = update w.group g g' } in
    elim (w.task p).state [
      | runnable ↦ add_runnable me p w
      | mpi_blocked ↦ record w {
        mgr = update w.mgr me (record mgr { mpi_blocked_queue = mgr.mpi_blocked_queue ++ p ∷ [] });
      }
      | group_wait ↦ if ready then add_runnable me p (set_state p runnable w') else w'
      | initial ↦ w
      | terminated ↦ w
    ]

abbrev pub set_current : ℕ → Ptr → World → World
set_current me p w = record w { mgr = update w.mgr me (record (w.mgr me) { current_task = p }) }

abbrev pub erase : Ptr → List Ptr → List Ptr
erase p [] = []
erase p (q ∷ qs) = let rest = erase p qs in if q == p then qs else q ∷ rest

abbrev is_mpi_blocked : TaskState → Bool
is_mpi_blocked initial = false
is_mpi_blocked runnable = false
is_mpi_blocked mpi_blocked = true
is_mpi_blocked group_wait = false
is_mpi_blocked terminated = false

-- `runnable_queue->dequeue()` of thread `me`.
unfoldable pub take_runnable : ℕ → World → Ptr × World
unfolding dequeue
take_runnable me w =
    let (p, m, s) = dequeue w.mem (w.mgr me).runnable_queue in
    (p, record w { mem = m; mgr = update w.mgr me (record (w.mgr me) { runnable_queue = s }) })

-- The callbacks are a parameter: `run p` takes the task p from where it stands to its next yield, or
-- to the end of its callback, and says whether it has ended.
module _ (run : Ptr → World → World × Bool) where
  -- `Task::continuationIn`.
  unfoldable pub continuation_in : ℕ → Ptr → World → World
  unfolding terminate
  continuation_in me p w =
      let w' : World = elim (w.task p).state [ initial ↦ set_state p runnable w | _ ↦ w ] in
      let (w'', ended) = run p w' in if ended then terminate me p w'' else w''

  -- `Task::runInStack`: a pure task runs to its end.
  unfoldable pub run_in_stack : ℕ → Ptr → World → World
  unfolding terminate
  run_in_stack me p w = terminate me p (run p w).0

  -- `PerThreadMgr::run_runnable`.
  unfoldable pub run_runnable : ℕ → World → Bool × World
  unfolding continuation_in run_in_stack handle_after_continuation_out take_runnable
  run_runnable me w =
      let (p, w') = take_runnable me w in
      let started = set_current me p w' in
      let ran =
        if (w.task p).is_pure then run_in_stack me p started else continuation_in me p started in
      if p == null
      then (false, w')
      else (true, handle_after_continuation_out me p (set_current me null ran))

  -- The loop of `PerThreadMgr::run_mpi_blocked` over the tasks that are left.
  poll_blocked : ℕ → List Ptr → World → Bool × World
  unfolding continuation_in handle_after_continuation_out
  poll_blocked me [] w = (false, w)
  poll_blocked me (p ∷ ps) w =
      let ran = set_current me null (continuation_in me p (set_current me p w)) in
      let rest = poll_blocked me ps ran in
      let handled = handle_after_continuation_out me p ran in
      let mgr = handled.mgr me in
      if is_mpi_blocked (ran.task p).state then rest else (
        true,
        record handled {
          mgr =
              update handled.mgr me
                (record mgr { mpi_blocked_queue = erase p mgr.mpi_blocked_queue });
        },
      )

  -- `PerThreadMgr::run_mpi_blocked`.
  unfoldable pub run_mpi_blocked : ℕ → World → Bool × World
  unfolding poll_blocked
  run_mpi_blocked me w = poll_blocked me (w.mgr me).mpi_blocked_queue w

-- The constructor of `Task`, which drops its argument.
abbrev pub new_task : Bool → Task
new_task is_pure = record { state = initial; is_pure = false; groups = []; blocked_by = 0 }

abbrev pub set_pure : Bool → Task → Task
set_pure v t = record t { is_pure = v }

-- `go` and `go_pure` of co_user.hh, run by thread `me`: a new task at `p`, with the handle that is
-- returned as one owner and the queue as another. A new task is not pure, so that `go`, which does not
-- call `setPure`, sets what is there.
unfoldable pub go : Bool → ℕ → Ptr → World → World
unfolding add_runnable
go is_pure me p w = add_runnable me p (record w {
  mem = record w.mem { counter = update w.mem.counter p 1 };
  task = update w.task p (set_pure is_pure (new_task false));
})

-- A round of the loop of `GlobalMediator::run_once`: thread `me` tries to steal from thread i.
unfoldable pub steal_from : ℕ → ℕ → World → Bool × World
unfolding dequeue_half replace
steal_from me i w =
    let (r, s, m) = dequeue_half w.mem (w.mgr i).runnable_queue in
    let mgr = update w.mgr i (record (w.mgr i) { runnable_queue = s }) in
    elim r [
      | none ↦ (false, record w { mem = m; mgr = mgr })
      | some q ↦ (
        true,
        record w {
          mem = m;
          mgr = update mgr me (record (mgr me) { runnable_queue = (replace q).0 });
        },
      )
    ]

-- The loop, with n threads left from i on. `meanwhile i` is what the other threads do before thread i is
-- tried.
unfoldable pub steal : (ℕ → World → World) → ℕ → ℕ → ℕ → World → Bool × World
unfolding steal_from
steal meanwhile me i zero w = (false, w)
steal meanwhile me i (suc n) w =
    let seen = meanwhile i w in
    let tried = steal_from me i seen in
    let rest = steal meanwhile me (suc i) n (if i == me then seen else tried.1) in
    if (if i == me then false else tried.0) then tried else rest

abbrev has_some : List Ptr → Bool
has_some [] = false
has_some (p ∷ ps) = true

-- `GlobalMediator::run_once`, of thread `me` of n; `meanwhile n` is what the other threads do behind the
-- loop.
unfoldable pub run_once :
    (Ptr → World → World × Bool) → (ℕ → World → World) → ℕ → ℕ → World → Bool × World
unfolding run_runnable run_mpi_blocked steal
run_once run meanwhile me n w =
    let own = run_runnable run me w in
    let stolen = steal meanwhile me 0 n own.1 in
    let last = meanwhile n stolen.1 in
    if own.0
    then own
    else if stolen.0
    then stolen
    else if has_some (last.mgr me).mpi_blocked_queue
    then (true, (run_mpi_blocked run me last).1)
    else (false, last)
