-- ===== src/Mediator/Others.antt =====
-- A thread without tasks gets none by what the other threads do.
use tythread.Base.{
  ℕ, ◌<◌, ◌≡◌, refl, sym, ap, ◌∙◌, ◌≢◌, ◌⊎◌, inl, inr, arith, Bool, eq_cases, List, [], ◌∷◌, ◌++◌,
  update, update_self, update-ne, Ptr, subst, Option, none, some, Absent,
}
use tythread.Mediator.{By, mpi_blocked_of}
use tythread.Scheduler.{World, PerThreadMgr, Task, go, add_runnable, take_runnable, steal_from}
use tythread.Scheduler.Shared.{add_runnable-Leaves, take_runnable-Leaves}
use tythread.Scheduler.Steal.{queue_of, tasks_of, taken, by_result}
use tythread.Scheduler.Theft.{steal_from-Robs, no_theft-tasks, local-tasks, local-IsOrderly}
use tythread.Scheduler.Interleave.{Scene, Step, spawn, resume, take, steal_step, local}
use tythread.Scheduler.Interleave.Held.{Good, held-Absent, new-Absent, held_real, size_few}
use tythread.Skiplist.{Skiplist, enqueue, size}
use tythread.Skiplist.Half.{dequeue_half}
use tythread.Task.{initial}

-- Thread k has no task, neither in its queue nor waiting for MPI.
pub record HasNone (k : ℕ) (w : World) : Type 0 where
  pub queue : tasks_of k w ≡ []
  pub blocked : mpi_blocked_of k w ≡ []

append-none : (a b : List Ptr) → [] ≡ a ++ b → b ≡ []
append-none [] b e = sym e
append-none (p ∷ a) b e = cc

Option-split : (o : Option Skiplist) → (o ≡ none) ⊎ ((q : Skiplist) × (o ≡ some q))
Option-split none = inl refl
Option-split (some q) = inr (q, refl)

-- What the operations of another thread do to the tasks of k that wait for MPI.
module _ (me k : ℕ) (ne : k ≢ me) (w : World) where
  add_runnable-blocked : (p : Ptr) → mpi_blocked_of k (add_runnable me p w) ≡ mpi_blocked_of k w
  unfolding enqueue
  add_runnable-blocked p = ap PerThreadMgr.mpi_blocked_queue (update-ne w.mgr me k _ ne)

  take_runnable-blocked : mpi_blocked_of k (take_runnable me w).1 ≡ mpi_blocked_of k w
  unfolding take_runnable
  take_runnable-blocked = ap PerThreadMgr.mpi_blocked_queue (update-ne w.mgr me k _ ne)

  -- The thread i is robbed, k perhaps.
  robbed-blocked :
      (i : ℕ) (s : Skiplist)
      → (update w.mgr i (record (w.mgr i) { runnable_queue = s }) k).mpi_blocked_queue
        ≡ mpi_blocked_of k w
  robbed-blocked i s = elim (eq_cases k i) [
    | inl (_, e) ↦ rw e (ap PerThreadMgr.mpi_blocked_queue (update_self w.mgr i _))
    | inr (_, off) ↦ ap PerThreadMgr.mpi_blocked_queue (update-ne w.mgr i k _ off)
  ]

  steal_from-blocked : (i : ℕ) → mpi_blocked_of k (steal_from me i w).1 ≡ mpi_blocked_of k w
  unfolding taken
  steal_from-blocked i =
      let d = dequeue_half w.mem (queue_of i w) in
      elim (Option-split d.0) [
        | inl e ↦ rw (by_result me i w none e) (robbed-blocked i d.1)
        | inr (q, e) ↦ rw (by_result me i w (some q) e) (
            ap PerThreadMgr.mpi_blocked_queue
              (update-ne (update w.mgr i (record (w.mgr i) { runnable_queue = d.1 })) me k _ ne)
            ∙ robbed-blocked i d.1)
      ]

module _ {n : ℕ} {x : Scene} (good : Good n x) (k : ℕ) (below : k < n) (h : HasNone k x.world) where
  none_left :
      (w : World)
      → tasks_of k w ≡ tasks_of k x.world
      → mpi_blocked_of k w ≡ mpi_blocked_of k x.world
      → HasNone k w
  none_left w e e' = record { queue = e ∙ h.queue; blocked = e' ∙ h.blocked }

  -- The queue of a thread without tasks is robbed, or that of another.
  steal-HasNone :
      (me i : ℕ) → me < n → i < n → i ≢ me → k ≢ me → HasNone k (steal_from me i x.world).1
  steal-HasNone me i mine robbed other ne = elim (eq_cases (size (queue_of i x.world)) 0) [
    | inl (_, none_there) ↦
        none_left (steal_from me i x.world).1
          ((no_theft-tasks me i robbed good.orderly none_there).1 k)
          (steal_from-blocked me k ne x.world i)
    | inr (_, some_there) ↦
        (let robs =
            steal_from-Robs mine robbed other good.orderly (omega arith) (size_few good i robbed) in
          elim (eq_cases k i) [
            | inl (_, e) ↦ record {
              queue = append-none (tasks_of me (steal_from me i x.world).1) _ (
                  sym h.queue
                  ∙ ap (λ j. tasks_of j x.world) e
                  ∙ robs.order
                  ∙ ap
                      (λ j.
                        tasks_of me (steal_from me i x.world).1
                        ++ tasks_of j (steal_from me i x.world).1)
                      (sym e));
              blocked = steal_from-blocked me k ne x.world i ∙ h.blocked;
            }
            | inr (_, off) ↦
                none_left (steal_from me i x.world).1 (robs.others k below ne off)
                  (steal_from-blocked me k ne x.world i)
          ])
  ]

  spawn-HasNone :
      (is_pure : Bool) (me : ℕ) (p : Ptr)
      → me < n
      → 0 < p
      → Absent p x.made
      → k ≢ me
      → HasNone k (go is_pure me p x.world)
  unfolding go
  spawn-HasNone is_pure me p mine pos new ne =
      let c = update x.world.mem.counter p 1 in
      let fresh : Task = record {
        state = initial;
        is_pure = is_pure;
        groups = [];
        blocked_by = 0;
      } in
      let w : World = record x.world {
        mem = record x.world.mem { counter = c };
        task = update x.world.task p fresh;
      } in
      let same = local-tasks x.world w c refl (λ j. refl) in
      let o = local-IsOrderly x.world w c refl (λ j. refl) good.orderly in
      let (leaves, last) =
        add_runnable-Leaves me mine o p pos
          (λ j b. subst (Absent p) (sym (same j)) (new-Absent good p new j b)) in
      none_left (add_runnable me p w) (leaves.others k below ne ∙ same k)
        (add_runnable-blocked me k ne w p)

-- The step of another thread leaves a thread without tasks as it is.
pub step-HasNone :
    {n : ℕ} {x y : Scene} (me k : ℕ)
    → Good n x
    → (s : Step n x y) → By me s
    → k < n
    → k ≢ me
    → HasNone k x.world
    → HasNone k y.world
step-HasNone me k good (spawn is_pure a p x mine pos new room) by below ne h =
    spawn-HasNone good k below h is_pure a p mine pos new (λ e. ne (e ∙ sym by))
step-HasNone me k good (resume a p x mine held) by below ne h =
    let off : k ≢ a = λ e. ne (e ∙ sym by) in
    let (leaves, last) =
      add_runnable-Leaves a mine good.orderly p (held_real good p held) (held-Absent good p held) in
    none_left good k below h (add_runnable a p x.world) (leaves.others k below off)
      (add_runnable-blocked a k off x.world p)
step-HasNone me k good (take a x mine) by below ne h =
    let off : k ≢ a = λ e. ne (e ∙ sym by) in
    none_left good k below h (take_runnable a x.world).1
      ((take_runnable-Leaves a mine good.orderly).others k below off)
      (take_runnable-blocked a k off x.world)
step-HasNone me k good (steal_step a i x mine robbed other bare) by below ne h =
    steal-HasNone good k below h a i mine robbed other (λ e. ne (e ∙ sym by))
step-HasNone me k good (local w' c x counts same) by below ne h =
    none_left good k below h w' (local-tasks x.world w' c counts same k) (by k ne)
