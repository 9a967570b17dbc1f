-- ===== src/Scheduler/Spawn.antt =====
-- A task that is spawned is the last of its thread's queue.
use tythread.Base.{
  ℕ, zero, suc, ◌+◌, ◌%◌, ◌^◌, ◌<◌, ◌≡◌, sym, ap, ◌∙◌, Bool, [], ◌∷◌, ◌++◌, Ptr, update,
  update_self, subst, Absent,
}
use tythread.Scheduler.{World, PerThreadMgr, Task, go}
use tythread.Scheduler.Steal.{queue_of, tasks_of}
use tythread.Skiplist.{Mem, Skiplist, enqueue, contents, row}
use tythread.Skiplist.Enqueue.{contents-enqueue, counter-enqueue, enqueue-IsValid}
use tythread.Skiplist.Row.{Row}
use tythread.Skiplist.Stack.{nexts, IsStack, IsValid}
use tythread.Task.{initial}

recounted-Row :
    (m : Mem) (s : Skiplist) {f : ℕ → Ptr} (c : Ptr → ℕ) (i : ℕ)
    → Row f (nexts m i) (row s i)
    → Row f (nexts (record m { counter = c }) i) (row s i)
recounted-Row m s c zero r = r
recounted-Row m s c (suc i) r = r

-- The counters are no part of a good state.
pub recounted-IsStack :
    {m : Mem} {s : Skiplist} {at : ℕ → ℕ → Ptr} (c : Ptr → ℕ)
    → IsStack m s at
    → IsStack (record m { counter = c }) s at
recounted-IsStack {m} {s} c stack = record {
  rows = λ i h. recounted-Row m s c i (stack.rows i h);
  links = stack.links;
  alloc = stack.alloc;
  owned = stack.owned;
  apart = stack.apart;
}

recounted-IsValid :
    {m : Mem} {s : Skiplist} (c : Ptr → ℕ) → IsValid m s → IsValid (record m { counter = c }) s
recounted-IsValid c v = record { at = v.at; stack = recounted-IsStack c v.stack }

-- A task that `go` or `go_pure` makes at an address that is not null and not in the queue of the
-- thread, which is in a good state, becomes the last of that queue; the queue stays in a good state, the
-- task is initial, and two own it, the queue and the handle.
pub go-last :
    (is_pure : Bool) (me : ℕ) (p : Ptr) (w : World)
    → IsValid w.mem (queue_of me w)
    → 0 < p
    → Absent p (tasks_of me w)
    → (tasks_of me (go is_pure me p w) ≡ tasks_of me w ++ p ∷ [])
      × IsValid (go is_pure me p w).mem (queue_of me (go is_pure me p w))
      × (((go is_pure me p w).task p).state ≡ initial)
      × ((go is_pure me p w).mem.counter p ≡ 2)
unfolding go contents
go-last is_pure me p w v pos absent =
    let c = update w.mem.counter p 1 in
    let v' = recounted-IsValid c v in
    let out = enqueue p (record w.mem { counter = c }) (queue_of me w) in
    let won : PerThreadMgr = record (w.mgr me) { runnable_queue = out.1 } in
    let mine : (update w.mgr me won me).runnable_queue ≡ out.1 =
      ap PerThreadMgr.runnable_queue (update_self w.mgr me won) in
    (
      ap (contents out.0) mine ∙ (contents-enqueue v' p pos absent).0,
      subst (IsValid out.0) (sym mine) (enqueue-IsValid v' p pos absent).0,
      ap Task.state (update_self w.task p _),
      ap (λ f. f p) (counter-enqueue v' p pos absent).0
          ∙ update_self c p _
          ∙ ap (λ n. (n + 1) % 2 ^ 32) (update_self w.mem.counter p 1),
    )
